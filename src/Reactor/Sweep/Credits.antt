-- ===== src/Reactor/Sweep/Credits.antt =====
-- What a held connection proves to the sweep of internal/tenderseed/seedreactortm2.go: `dialable` looks a peer up
-- by the identity of an address alone.
use mathlib.Core.Logic.Or
use tenderseed.Common.{ℕ, List, Bool, false, Option, none, some, ◌==◌}
use tenderseed.Book.{BookRecord}

-- The record has its last success at the moment.
abbrev pub is_proven_at : ℕ → Option BookRecord → Bool
is_proven_at now none = false
is_proven_at now (some r) = r.last_ok == now
