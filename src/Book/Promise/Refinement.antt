-- ===== src/Book/Promise/Refinement.antt =====
-- The operations of internal/tenderseed/seedbook.go keep what the book promises.
use mathlib.Core.List.{mem-append}
use mathlib.Core.List.Perm
use mathlib.Core.Bool.{Bool-set}
use mathlib.Core.Logic.Or
use tenderseed.Common.{
  ◌-◌, List, [], ◌∷◌, ◌≡◌, refl, sym, ap, subst, ◌∙◌, ◌⊎◌, inl, inr, Bool, true, false, ◌||◌,
  if◌then◌else◌, Option, none, some, leb, arith, Text, text_eq, contains, NoRepeat, text_equality,
  length, length-append, length-map, perm-length, map, min, Bool-cases, none≢some,
}
use tenderseed.Common.Map.{lookup, values, lookup-All, Distinct}
use tenderseed.Common.Sorting.{Sorter}
use tenderseed.Address.{Net}
use tenderseed.Book.{BookRecord, SeedBook, add_each, evict, evict_less, add_peers}
use tenderseed.Book.Invariant.{
  EntryOk, IsValid, Call, adds, succeeds, attempts, drops, step, run, step-IsValid,
  add_each-IsValid, evict-IsValid,
}
use tenderseed.Book.Eviction.{lookup-values, mem-values, evict_split}
use tenderseed.Book.Promise.{
  view, is_some, IsKeysOf, Evicts, Permits, hears, proves, tries, spares, Runs, done, next,
}
use tenderseed.Book.Promise.Changes.{
  IsSame, add_each-refines, mark_success-refines, mark_attempt-refines, drop_failing-refines,
  delete_first-kept,
}

module _ (net : Net) where
  keys-IsKeysOf :
      (m : List (Text × BookRecord))
      → Distinct m
      → IsKeysOf (λ key. lookup key m) (map (λ (e : Text × BookRecord). e.0) m)
  keys-IsKeysOf m d = record { exact = exact m; unique = unique m d }
    where
      exact :
          (m : List (Text × BookRecord)) (key : Text)
          → is_some (lookup key m) ≡ contains key (map (λ (e : Text × BookRecord). e.0) m)
      exact [] key = refl
      exact ((k, r) ∷ m) key =
          either (text_eq k key) (lookup key m) ∙ ap (λ x. text_eq k key || x) (exact m key)
        where
          either :
              (t : Bool) (o : Option BookRecord)
              → is_some (if t then some r else o) ≡ (t || is_some o)
          either true o = refl
          either false o = refl

      unique :
          (m : List (Text × BookRecord))
          → Distinct m
          → NoRepeat (map (λ (e : Text × BookRecord). e.0) m)
      unique [] d = tt
      unique ((k, r) ∷ m) d = (sym (exact m k) ∙ ap is_some d.0, unique m d.1)

  module _ (sorter : Sorter BookRecord) where
    evict-kept :
        (b : SeedBook) (key : Text)
        → (view (evict net sorter b) key ≡ view b key) ⊎ (view (evict net sorter b) key ≡ none)
    unfolding evict
    evict-kept b key = elim (Bool-cases (leb (length b.peers) b.max_peers)) [
      | inl fits ↦ rw (fits, evict) (inl refl)
      | inr over ↦
          rw (over, evict)
            (delete_first-kept net (length b.peers - b.max_peers)
              (sorter.sort evict_less (values b.peers)) b.peers key)
    ]

    evict-Evicts :
        (b : SeedBook) → IsValid net b → Evicts b.max_peers (view b) (view (evict net sorter b))
    unfolding evict
    evict-Evicts b v = record {
      keys = map (λ (e : Text × BookRecord). e.0) b.peers;
      left = map (λ (e : Text × BookRecord). e.0) left;
      keys_of = keys-IsKeysOf b.peers v.distinct;
      left_of = keys-IsKeysOf left valid.distinct;
      number = number;
      kept = evict-kept b;
      in_order = in_order;
    }
      where
        left : List (Text × BookRecord)
        left = (evict net sorter b).peers

        valid : IsValid net (evict net sorter b)
        valid = evict-IsValid net sorter b v

        number :
            length (map (λ (e : Text × BookRecord). e.0) left)
            ≡ min (length (map (λ (e : Text × BookRecord). e.0) b.peers)) b.max_peers
        number =
            let (away, same, many, _) = evict_split net sorter b v in
            omega (
              arith,
              many,
              perm-length same,
              length-append away (values left),
              length-map (λ (e : Text × BookRecord). e.0) left,
              length-map (λ (e : Text × BookRecord). e.1) left,
              length-map (λ (e : Text × BookRecord). e.0) b.peers,
              length-map (λ (e : Text × BookRecord). e.1) b.peers,
            )

        in_order :
            (key other : Text) {x y : BookRecord}
            → view b key ≡ some x
            → lookup key left ≡ none
            → lookup other left ≡ some y
            → evict_less y x ≡ false
        in_order key other {x} {y} was gone stays =
            let (away, same, _, apart) = evict_split net sorter b v in
            let named = (lookup-All (EntryOk net b.strict) key b.peers v.held was).0 in
            Or.elim (Bool-set _ _)
              (mem-append.0 (Perm.subset same x (mem-values net b.strict key b.peers was)))
              (λ m. apart x y m (mem-values net b.strict other left stays))
              (λ m. absurd (
                none≢some (
                  sym gone
                  ∙ ap (λ k. lookup k left) named
                  ∙ lookup-values net (evict net sorter b).strict left valid.distinct valid.held
                      m)))

    evict-IsSame : (b : SeedBook) → IsSame b (evict net sorter b)
    unfolding evict
    evict-IsSame b = ground arith

    step-refines :
        (b : SeedBook) (c : Call)
        → IsValid net b
        → Permits net b.strict b.self b.max_peers c (view b) (view (step net sorter b c))
          × IsSame b (step net sorter b c)
    unfolding step add_peers
    step-refines b (adds addrs now) v =
        let heard = add_each net now b addrs in
        let (e, (strict, self, max)) = add_each-refines net now b addrs in
        let (strict', self', max') = evict-IsSame heard in
        (
          hears addrs now (view b) (view (evict net sorter heard)) (
              subst (λ w. Evicts b.max_peers w (view (evict net sorter heard))) e
                (subst (λ n. Evicts n (view heard) (view (evict net sorter heard))) max
                  (evict-Evicts heard (add_each-IsValid net now b addrs v)))),
          (strict' ∙ strict, self' ∙ self, max' ∙ max),
        )
    step-refines b (succeeds addr now) v =
        let (e, same) = mark_success-refines net b addr now in
        (
          subst (Permits net b.strict b.self b.max_peers (succeeds addr now) (view b)) (sym e)
              (proves addr now (view b)),
          same,
        )
    step-refines b (attempts addr now) v =
        let (e, same) = mark_attempt-refines net b addr now in
        (
          subst (Permits net b.strict b.self b.max_peers (attempts addr now) (view b)) (sym e)
              (tries addr now (view b)),
          same,
        )
    step-refines b (drops limit) v =
        let (e, same) = drop_failing-refines net b limit v.distinct in
        (
          subst (Permits net b.strict b.self b.max_peers (drops limit) (view b)) (sym e)
              (spares limit (view b)),
          same,
        )

    -- Whatever is called on a valid book: told by key, each call makes of the records what the promise
    -- permits. A call that adds hears of each admissible address and then keeps as many records as the limit
    -- allows, giving up others first in the order of eviction; a success and an attempt change one record;
    -- and a drop takes away exactly the records that have failed too often.
    pub run-refines :
        (b : SeedBook) (calls : List Call)
        → IsValid net b
        → Runs net b.strict b.self b.max_peers (view b) calls (view (run net sorter b calls))
    unfolding run
    run-refines b [] v = done (view b)
    run-refines b (c ∷ calls) v =
        let after = step net sorter b c in
        let (permits, (strict, self, max)) = step-refines b c v in
        next c calls (view b) (view after) (view (run net sorter after calls)) permits (
          subst
            (λ n. Runs net b.strict b.self n (view after) calls (view (run net sorter after calls)))
            max
            (subst
              (λ s.
                Runs net b.strict s after.max_peers (view after) calls
                  (view (run net sorter after calls)))
              self
              (subst
                (λ s.
                  Runs net s after.self after.max_peers (view after) calls
                    (view (run net sorter after calls)))
                strict (run-refines after calls (step-IsValid net sorter b c v)))))
