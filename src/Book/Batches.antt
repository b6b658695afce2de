-- ===== src/Book/Batches.antt =====
-- `collectSorted` of internal/tenderseed/seedbook.go and the batches made with it.
use mathlib.Core.List.{append-nil, not-mem-nil}
use mathlib.Core.List.Perm
use tenderseed.Common.{
  min, if◌then◌else◌, ℕ, List, [], ◌++◌, ◌≡◌, Bool, false, ◌&&◌, inl, inr, arith, Bool-cases, ltb,
  length, drop, select, Mem, Perm, take-append-drop, length-take, perm-length,
}
use tenderseed.Common.Sorting.{Sorter, IsWeakOrder, IsSorted, IsSorted-cut, IsSorted-take}
use tenderseed.Book.{BookRecord, SeedBook}
use tenderseed.Book.Queries.{records, collect_records, older_news, newer_proof}

pub newer_proof-IsWeakOrder : IsWeakOrder newer_proof
unfolding newer_proof
newer_proof-IsWeakOrder = record {
  asym = λ x y h. ground arith;
  cotrans = λ x y z h k. ground arith;
}

pub older_news-IsWeakOrder : IsWeakOrder older_news
unfolding older_news
older_news-IsWeakOrder = record {
  asym = λ x y h. ground arith;
  cotrans = λ x y z h k. ground arith;
}

-- What a sorted collection with a limit answers, and what it leaves out.
pub record IsTopOf (less : BookRecord → BookRecord → Bool) (limit : ℕ) (pool out : List BookRecord)
    : Type 0 where
  pub left : List BookRecord
  pub whole : Perm pool (out ++ left)
  pub sorted : IsSorted less out
  pub best : (x y : BookRecord) → Mem x out → Mem y left → less y x ≡ false
  pub sized : length out ≡ (if ltb 0 limit then min limit (length pool) else length pool)

module _ (sorter : Sorter BookRecord) (keep : BookRecord → Bool)
    (less : BookRecord → BookRecord → Bool) (w : IsWeakOrder less) (limit : ℕ) (b : SeedBook) where
  -- A sorted collection answers, in order, with records of the book that pass the test; there are
  -- `limit` of them, or all when these are fewer or when `limit` is zero; and none that it leaves out
  -- comes before one that it gives.
  pub collect_records-IsTopOf :
      IsTopOf less limit (select keep (records b)) (collect_records sorter keep less limit b)
  unfolding collect_records
  collect_records-IsTopOf = elim (Bool-cases (ltb 0 limit && ltb limit (length ordered))) [
    | inl over ↦ rw over (record {
      left = drop limit ordered;
      whole = Perm.trans (Perm.symm same) (rw (take-append-drop limit ordered) Perm.rfl);
      sorted = IsSorted-take less limit ordered in_order;
      best = λ x y mx my. IsSorted-cut less limit ordered in_order mx my;
      sized = ground (arith, length-take limit ordered, perm-length same);
    })
    | inr all ↦ rw all (record {
      left = [];
      whole = Perm.trans (Perm.symm same) (rw append-nil Perm.rfl);
      sorted = in_order;
      best = λ x y mx my. absurd (not-mem-nil my);
      sized = ground (arith, perm-length same);
    })
  ]
    where
      ordered : List BookRecord
      ordered = sorter.sort less (select keep (records b))

      same : Perm ordered (select keep (records b))
      same = sorter.sort-perm less (select keep (records b))

      in_order : IsSorted less ordered
      in_order = sorter.sort-IsSorted less (select keep (records b)) w
