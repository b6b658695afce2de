-- ===== src/Book/Promise.antt =====
-- What the book of internal/tenderseed/seedbook.go promises, told of the records by key alone: what each
-- operation may make of them.
pub mod Changes
pub mod Refinement
use mathlib.Core.List.{mem-append}
use mathlib.Core.List.Perm
use mathlib.Core.Bool.{Bool-set}
use mathlib.Core.Logic.Or
use tenderseed.Common.Int.{pos, leb_ℤ}
use tenderseed.Common.{
  ℕ, zero, suc, ◌-◌, List, [], ◌∷◌, ◌++◌, ◌≡◌, refl, sym, ap, subst, ◌∙◌, ◌⊎◌, inl, inr, Bool, true,
  false, not, ◌||◌, Option, none, some, ltb, leb, ◌==◌, if◌then◌else◌, arith, Text, text_eq,
  text_eq_iff, contains, NoRepeat, text_equality, length, length-append, length-map, perm-length,
  map, min, ◌&&◌, Mem, Bool-cases, Option-cases, some-path, none≢some,
}
use tenderseed.Common.Map.{
  lookup, insert, delete, values, lookup-insert, lookup-delete, lookup-All, Distinct,
}
use tenderseed.Common.Sorting.{Sorter}
use tenderseed.Address.{NetAddress, Net}
use tenderseed.Book.{
  BookRecord, SeedBook, new_record, may_hold, admissible, add_peer, add_each, delete_first,
  get_record, put_record, mark_success, count_attempt, mark_attempt, evict, evict_less, add_peers,
  drop_entries, drop_failing,
}
use tenderseed.Book.Invariant.{
  EntryOk, IsValid, Call, adds, succeeds, attempts, drops, step, run, step-IsValid,
  add_each-IsValid, evict-IsValid,
}
use tenderseed.Book.Eviction.{lookup-values, mem-values, evict_split}

-- The record of each key, if any.
abbrev pub View : Type 0
View = Text → Option BookRecord

abbrev pub view : SeedBook → View
view b key = lookup key b.peers

-- A view with another record at one key.
abbrev pub put : Text → BookRecord → View → View
put key r v k = if text_eq key k then some r else v k

-- The record at a key, or a new one.
abbrev pub or_new : NetAddress → ℕ → Option BookRecord → BookRecord
or_new addr now none = new_record addr now
or_new addr now (some r) = r

module _ (net : Net) (strict : Bool) (self : NetAddress) where
  open net use {same, to_string}

  -- The address is heard of, unless it may not be held or is the node's own.
  abbrev pub hear : ℕ → View → Option NetAddress → View
  hear now v none = v
  hear now v (some addr) =
      if not (may_hold net strict addr) || same addr self
      then v
      else put (to_string addr) (record (or_new addr now (v (to_string addr))) { last_seen = now })
          v

  abbrev pub hear_each : ℕ → View → List (Option NetAddress) → View
  hear_each now v [] = v
  hear_each now v (addr ∷ addrs) = hear_each now (hear now v addr) addrs

  -- The address has been reached.
  abbrev pub prove : ℕ → View → Option NetAddress → View
  prove now v none = v
  prove now v (some addr) =
      if not (may_hold net strict addr)
      then v
      else put (to_string addr)
          (record (or_new addr now (v (to_string addr))) {
            last_try = now;
            last_ok = now;
            fails = pos 0;
          })
          v

  -- The address is about to be tried.
  abbrev pub try : ℕ → View → Option NetAddress → View
  try now v none = v
  try now v (some addr) =
      if not (may_hold net strict addr)
      then v
      else put (to_string addr) (count_attempt (or_new addr now (v (to_string addr))) now) v

-- The records that have not failed so often; a limit of zero drops nothing.
abbrev pub spare : ℕ → View → View
spare limit v = if limit == 0 then v else λ key. elim (v key) [
  | none ↦ none
  | some r ↦ if leb_ℤ limit r.fails then none else some r
]

abbrev pub is_some : Option BookRecord → Bool
is_some none = false
is_some (some r) = true

-- The keys of a view, each once.
pub record IsKeysOf (v : View) (keys : List Text) : Type 0 where
  pub exact : (key : Text) → is_some (v key) ≡ contains key keys
  pub unique : NoRepeat keys

-- Records are given up until no more than a limit are left, and none of them would have to stay rather than
-- one that is kept, in the order of eviction.
pub record Evicts (limit : ℕ) (v w : View) : Type 0 where
  pub keys : List Text
  pub left : List Text
  pub keys_of : IsKeysOf v keys
  pub left_of : IsKeysOf w left
  pub number : length left ≡ min (length keys) limit
  pub kept : (key : Text) → (w key ≡ v key) ⊎ (w key ≡ none)
  pub in_order :
      (key other : Text) {x y : BookRecord}
      → v key ≡ some x
      → w key ≡ none
      → w other ≡ some y
      → evict_less y x ≡ false

module _ (net : Net) (strict : Bool) (self : NetAddress) (limit : ℕ) where
  -- What a call may make of the records.
  pub data Permits : Call → View → View → Type 0 where
    hears :
        (addrs : List (Option NetAddress)) (now : ℕ) (v w : View)
        → Evicts limit (hear_each net strict self now v addrs) w
        → Permits (adds addrs now) v w
    proves :
        (addr : Option NetAddress) (now : ℕ) (v : View)
        → Permits (succeeds addr now) v (prove net strict self now v addr)
    tries :
        (addr : Option NetAddress) (now : ℕ) (v : View)
        → Permits (attempts addr now) v (try net strict self now v addr)
    spares : (fails : ℕ) (v : View) → Permits (drops fails) v (spare fails v)

  -- What a sequence of calls may make of them.
  pub data Runs : View → List Call → View → Type 0 where
    done : (v : View) → Runs v [] v
    next :
        (c : Call) (calls : List Call) (u v w : View)
        → Permits c u v
        → Runs v calls w
        → Runs u (c ∷ calls) w
