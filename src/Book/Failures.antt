-- ===== src/Book/Failures.antt =====
-- Failures of internal/tenderseed/seedbook.go: how attempts count them, and what `DropFailing` removes.
use tenderseed.Common.Int.{pos, suc_ℤ, leb_ℤ}
use tenderseed.Common.{
  suc, ap, ◌∙◌, ℕ, ◌+◌, ◌-◌, ◌<◌, List, [], ◌∷◌, ◌≡◌, refl, ◌&&◌, none, some, arith, if◌then◌else◌,
  Text, text_equality, text_eq_iff, ltb, length,
}
use tenderseed.Common.Map.{lookup, Distinct}
use tenderseed.Book.{BookRecord, SeedBook, count_attempt, drop_entries, drop_failing}

-- Attempts at the given times, with no success between them.
unfoldable pub attempt_each : BookRecord → List ℕ → BookRecord
unfolding count_attempt
attempt_each r [] = r
attempt_each r (t ∷ ts) = attempt_each (count_attempt r t) ts

-- Times that are after `t` and rise.
abbrev pub IsRising : ℕ → List ℕ → Type 0
IsRising t [] = Unit
IsRising t (u ∷ us) = (t < u) × IsRising u us

attempt_each-failing :
    (r : BookRecord) (n : ℕ) (ts : List ℕ)
    → r.fails ≡ pos n
    → r.last_ok < r.last_try
    → IsRising r.last_try ts
    → (attempt_each r ts).fails ≡ pos (n + length ts)
unfolding attempt_each
attempt_each-failing r n [] f h rise = f ∙ ap pos (omega arith)
attempt_each-failing r n (t ∷ ts) f h rise =
    let one_more : (count_attempt r t).fails ≡ suc_ℤ r.fails = ground arith in
    attempt_each-failing (count_attempt r t) (suc n) ts (one_more ∙ ap suc_ℤ f) (omega arith) rise.1
    ∙ ap pos (omega arith)

-- After a success, the count is the number of attempts that were not answered before the next one was
-- made: one less than the attempts. The address of the last attempt may still answer.
pub fails-attempt_each :
    (r : BookRecord) (ts : List ℕ)
    → r.fails ≡ pos 0
    → r.last_try ≡ r.last_ok
    → IsRising r.last_ok ts
    → (attempt_each r ts).fails ≡ pos (length ts - 1)
unfolding attempt_each
fails-attempt_each r [] f e rise = f
fails-attempt_each r (t ∷ ts) f e rise =
    let none_yet : (count_attempt r t).fails ≡ r.fails = ground arith in
    attempt_each-failing (count_attempt r t) 0 ts (none_yet ∙ f) (omega arith) rise.1
    ∙ ap pos (omega arith)

pub lookup-drop_entries :
    (limit : ℕ) (key : Text) (m : List (Text × BookRecord))
    → Distinct m
    → lookup key (drop_entries limit m).0
      ≡ elim (lookup key m) [ none ↦ none | some r ↦ if leb_ℤ limit r.fails then none else some r ]
unfolding drop_entries
lookup-drop_entries limit key [] d = refl
lookup-drop_entries limit key ((k, r) ∷ m) d =
    ground (arith, lookup-drop_entries limit key m, text_eq_iff k key)

length-drop_entries :
    (limit : ℕ) (m : List (Text × BookRecord))
    → length (drop_entries limit m).0 + (drop_entries limit m).1 ≡ length m
unfolding drop_entries
length-drop_entries limit [] = omega arith
length-drop_entries limit ((k, r) ∷ m) = ground (arith, length-drop_entries limit m)

-- With a positive limit `DropFailing` takes away exactly the entries whose count reaches it, leaves
-- every other entry as it is, and returns how many it took away; at zero it changes nothing.
pub drop_failing_lem :
    (b : SeedBook) (limit : ℕ) (key : Text)
    → Distinct b.peers
    → (lookup key (drop_failing b limit).0.peers ≡ elim (lookup key b.peers) [
      | none ↦ none
      | some r ↦ if ltb 0 limit && leb_ℤ limit r.fails then none else some r
    ])
      × (length (drop_failing b limit).0.peers + (drop_failing b limit).1 ≡ length b.peers)
unfolding drop_failing
drop_failing_lem b limit key d =
    ground (arith, lookup-drop_entries limit key b.peers, length-drop_entries limit b.peers)
