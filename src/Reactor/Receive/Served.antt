-- ===== src/Reactor/Receive/Served.antt =====
-- What a seed of internal/tenderseed/seedreactortm2.go hands out, over any sequence of calls of its
-- reactor: where the proofs behind it come from, and how old they are.
use mathlib.Core.Logic.{∥∥₁_elim, ∥∥₁_prop}
use mathlib.Core.Logic.Or
use mathlib.Core.List.{not-mem-nil, mem-cons}
use tenderseed.Common.{
  ℕ, ◌+◌, ◌<◌, List, [], ◌∷◌, ◌≡◌, ◌⊎◌, inl, inr, Bool, true, arith, Text, text_equality, Mem, All,
  subst, sym,
}
use tenderseed.Common.Map.{values}
use tenderseed.Common.Sorting.{Sorter}
use tenderseed.Address.{NetAddress, Net}
use tenderseed.Book.{BookRecord}
use tenderseed.Book.Queries.{is_fresh}
use tenderseed.Book.Invariant.{EntryOk}
use tenderseed.Book.Origin.{HasReason, AreReasons, HasReason-weaken, WasProven, AreReasons-start}
use tenderseed.Reactor.{SeedReactor, Peers}
use tenderseed.Reactor.Budget.{freshness}
use tenderseed.Reactor.Spread.{Random}
use tenderseed.Reactor.Serve.{selection}
use tenderseed.Reactor.Serve.Answers.{selection_lem}
use tenderseed.Reactor.Wire.{WireCodec}
use tenderseed.Reactor.Receive.Origins.{Backs, BacksIn, here, later, handle-AreReasons}
use tenderseed.Reactor.Receive.Exchange.{IsSound, Event, handle, handle_each, handle_each-IsSound}

-- The reason of a key at a moment, after a sequence: one that it had, or a call that backed its address
-- at that moment.
abbrev pub Since : Net → (Text → ℕ → Type 0) → List (Peers × Event) → Text → ℕ → Type 0
Since net Reason es key t = Reason key t ⊎ BacksIn net key t es

-- A proof of the given moment still counts, where proofs expire at all.
abbrev pub IsRecent : SeedReactor → ℕ → ℕ → Type 0
IsRecent r now t = (freshness r ≡ 0) ⊎ (now < t + freshness r)

module _ (net : Net) (sorter : Sorter BookRecord) (codec : WireCodec) where
  handle_each-AreReasons :
      (Reason : Text → ℕ → Type 0) (r : SeedReactor) (es : List (Peers × Event))
      → AreReasons Reason r.book
      → AreReasons (Since net Reason es) (handle_each net sorter codec r es).book
  unfolding handle_each
  handle_each-AreReasons Reason r [] a = HasReason-weaken (λ key t p. inl p) r.book.peers a
  handle_each-AreReasons Reason r (e ∷ es) a =
      let next = handle net sorter codec r e in
      HasReason-weaken
        (λ key t p. elim p [
          | inl (inl old) ↦ inl old
          | inl (inr reached) ↦ inr (here e es reached)
          | inr after ↦ inr (later e es after)
        ])
        (handle_each net sorter codec next es).book.peers
        (handle_each-AreReasons (λ key t. Reason key t ⊎ Backs net key t e) next es
          (handle-AreReasons net (λ key t. Reason key t ⊎ Backs net key t e) sorter codec r e
            (λ key t h. inr h) (HasReason-weaken (λ key t p. inl p) r.book.peers a)))

  -- The record behind a served address has a proof, so its key has a reason.
  served-reason :
      (Reason : Text → ℕ → Type 0) (strict : Bool) (window now : ℕ) (m : List (Text × BookRecord))
      {rec : BookRecord}
      → All (EntryOk net strict) m
      → All (HasReason Reason) m
      → is_fresh window now rec ≡ true
      → Mem rec (values m)
      → ∥ Reason (net.to_string rec.addr) rec.last_ok ∥₁
  unfolding is_fresh
  served-reason Reason strict window now [] v a fresh found = absurd (not-mem-nil found)
  served-reason Reason strict window now ((key, r) ∷ m) {rec} v a fresh found =
      Or.elim ∥∥₁_prop (mem-cons.0 found)
        (λ same. elim a.0 [
          | inl never ↦ absurd (unproven_fresh rec (rw same never) fresh)
          | inr reason ↦
              ∣ subst (λ (x : BookRecord). Reason (net.to_string x.addr) x.last_ok) (sym same)
                (subst (λ (k : Text). Reason k r.last_ok) v.0.0 reason) ∣₁
        ])
        (λ rest. served-reason Reason strict window now m v.1 a.1 fresh rest)
    where
      unproven_fresh : (x : BookRecord) → x.last_ok ≡ 0 → is_fresh window now x ≡ true → ⊥
      unproven_fresh x never h = ground arith

  is_fresh-recent :
      (window now : ℕ) (rec : BookRecord)
      → is_fresh window now rec ≡ true
      → (window ≡ 0) ⊎ (now < rec.last_ok + window)
  unfolding is_fresh
  is_fresh-recent window now rec h = ground arith

  -- A served address has a reason, at a moment that is not too old.
  pub selection-reason :
      (Reason : Text → ℕ → Type 0) (r : SeedReactor) (rand : Random) (requester : Text) (now : ℕ)
      {a : NetAddress}
      → IsSound net r
      → AreReasons Reason r.book
      → Mem a (selection net sorter r rand requester now)
      → ∥ ((t : ℕ) × Reason (net.to_string a) t × IsRecent r now t) ∥₁
  selection-reason Reason r rand requester now {a} sound reasons m =
      ∥∥₁_elim ((selection_lem net sorter r rand requester now).1 a m).0 ∥∥₁_prop
        (λ (rec, found, fresh, e).
          ∥∥₁_elim
            (served-reason Reason r.book.strict (freshness r) now r.book.peers sound.book.held
              reasons fresh found)
            ∥∥₁_prop
            (λ reason. ∣ (
              rec.last_ok,
              subst (λ (x : NetAddress). Reason (net.to_string x) rec.last_ok) e reason,
              is_fresh-recent (freshness r) now rec fresh,
            ) ∣₁))

  -- Every address that a seed may hand out, after any sequence of calls, has a proof that counts still, from
  -- a moment at which the book had it when the sequence began, or at which a call of the sequence backed
  -- the address.
  pub selection-reached :
      (r : SeedReactor) (es : List (Peers × Event)) (rand : Random) (requester : Text) (now : ℕ)
      {a : NetAddress}
      → IsSound net r
      → Mem a (selection net sorter (handle_each net sorter codec r es) rand requester now)
      → ∥ (
          (t : ℕ) × Since net (WasProven r.book) es (net.to_string a) t
          × IsRecent (handle_each net sorter codec r es) now t) ∥₁
  selection-reached r es rand requester now v =
      selection-reason (Since net (WasProven r.book) es) (handle_each net sorter codec r es) rand
        requester now (handle_each-IsSound net sorter codec r es v)
        (handle_each-AreReasons (WasProven r.book) r es (AreReasons-start r.book))
