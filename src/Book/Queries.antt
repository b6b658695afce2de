-- ===== src/Book/Queries.antt =====
-- What the book answers, internal/tenderseed/seedbook.go: the methods that take the read lock. The
-- addresses handed out are copies, so here they are values.
use tenderseed.Common.{
  ℕ, ◌+◌, ◌-◌, List, [], ◌∷◌, map, Bool, true, false, not, ◌&&◌, ◌||◌, Option, none, some, ltb,
  ◌==◌, if◌then◌else◌, text_equality, length, take, select,
}
use tenderseed.Common.Map.{lookup, values}
use tenderseed.Common.Sorting.{Sorter}
use tenderseed.Common.Time.{is_zero, before, after}
use tenderseed.Address.{NetAddress, Net}
use tenderseed.Book.{BookRecord, SeedBook, last_news}

abbrev pub records : SeedBook → List BookRecord
records b = values b.peers

unfoldable pub collect : (BookRecord → Bool) → SeedBook → List NetAddress
collect keep b = map (λ r. r.addr) (select keep (records b))

unfoldable pub get_peers : SeedBook → List NetAddress
unfolding collect
get_peers b = collect (λ _. true) b

unfoldable pub verified : SeedBook → List NetAddress
unfolding collect
verified b = collect (λ r. not (is_zero r.last_ok)) b

-- `time.Now().Add(-window)`. No window reaches back to the year 1.
abbrev pub cutoff : ℕ → ℕ → ℕ
cutoff now window = now - window

unfoldable pub fresh : SeedBook → ℕ → ℕ → List NetAddress
unfolding collect verified
fresh b window now =
    if window == 0
    then verified b
    else collect (λ r. not (is_zero r.last_ok) && after r.last_ok (cutoff now window)) b

unfoldable pub stale : SeedBook → ℕ → ℕ → List NetAddress
unfolding collect
stale b window now = collect (λ r. is_zero r.last_ok || before r.last_ok (cutoff now window)) b

-- `records[:limit]`, where a limit of zero keeps them all.
unfoldable pub cut : ℕ → List BookRecord → List BookRecord
cut limit rs = if ltb 0 limit && ltb limit (length rs) then take limit rs else rs

-- The test of `FreshBatch`, and of the two stale sets.
unfoldable pub is_fresh : ℕ → ℕ → BookRecord → Bool
is_fresh window now r =
    if ltb 0 window
    then not (is_zero r.last_ok) && after r.last_ok (cutoff now window)
    else not (is_zero r.last_ok)

unfoldable pub is_stale_proven : ℕ → ℕ → BookRecord → Bool
is_stale_proven window now r = not (is_zero r.last_ok) && before r.last_ok (cutoff now window)

unfoldable pub is_unproven : BookRecord → Bool
is_unproven r = is_zero r.last_ok

unfoldable pub older_news : BookRecord → BookRecord → Bool
unfolding last_news
older_news left right = before (last_news left) (last_news right)

unfoldable pub newer_proof : BookRecord → BookRecord → Bool
newer_proof left right = after left.last_ok right.last_ok

module _ (sorter : Sorter BookRecord) where
  -- The records that `collectSorted` copies the addresses of.
  unfoldable pub collect_records :
      (BookRecord → Bool) → (BookRecord → BookRecord → Bool) → ℕ → SeedBook → List BookRecord
  unfolding cut
  collect_records keep less limit b = cut limit (sorter.sort less (select keep (records b)))

  unfoldable pub collect_sorted :
      (BookRecord → Bool) → (BookRecord → BookRecord → Bool) → ℕ → SeedBook → List NetAddress
  unfolding collect_records
  collect_sorted keep less limit b = map (λ r. r.addr) (collect_records keep less limit b)

  unfoldable pub stale_proven_batch : SeedBook → ℕ → ℕ → ℕ → List NetAddress
  unfolding collect_sorted
  stale_proven_batch b window limit now =
      collect_sorted (is_stale_proven window now) older_news limit b

  unfoldable pub stale_unproven_batch : SeedBook → ℕ → List NetAddress
  unfolding collect_sorted
  stale_unproven_batch b limit = collect_sorted is_unproven older_news limit b

  unfoldable pub fresh_batch : SeedBook → ℕ → ℕ → ℕ → List NetAddress
  unfolding collect_sorted
  fresh_batch b window limit now = collect_sorted (is_fresh window now) newer_proof limit b

unfoldable pub knows : Net → SeedBook → Option NetAddress → Bool
knows net b none = false
knows net b (some addr) = elim (lookup (net.to_string addr) b.peers) [
  | none ↦ false
  | some _ ↦ true
]

unfoldable pub size : SeedBook → ℕ
size b = length b.peers

-- The loop of `VerifiedSize`.
unfoldable pub count_verified : List BookRecord → ℕ
count_verified [] = 0
count_verified (r ∷ rs) =
    if not (is_zero r.last_ok) then count_verified rs + 1 else count_verified rs

unfoldable pub verified_size : SeedBook → ℕ
unfolding count_verified
verified_size b = count_verified (records b)
