-- ===== src/Tests/Books.antt =====
-- The properties of the book of internal/tenderseed/seedbook.go at small books.
use tenderseed.Common.{
  ◌+◌, ◌≤◌, ◌<◌, [], ◌∷◌, map, ◌≡◌, refl, inl, inr, true, false, none, some, arith, text_eq,
  text_equality, length, select, All,
}
use tenderseed.Common.Map.{lookup, values}
use tenderseed.Book.{BookRecord, add_each, add_peer, add_peers, admissible}
use tenderseed.Book.Queries.{records, collect_records, is_stale_proven, older_news, verified_size}
use tenderseed.Book.Invariant.{IsValid, run, run-IsValid, adds, succeeds, attempts, drops}
use tenderseed.Book.Counting.{add_peers-keeps_reached}
use tenderseed.Book.Batches.{IsTopOf, collect_records-IsTopOf, older_news-IsWeakOrder}
use tenderseed.Book.File.{missing, holds, to_entry, save, snapshot, settle}
use tenderseed.Book.File.RoundTrip.{CanReload}
use tenderseed.Book.File.Pending.{apply_each, mentions, save-loses_no_change, save-misses_eviction}
use tenderseed.Tests.Samples.{
  bob, carol, seed, net, sorter, today, alice_record, book, book-IsValid,
}

fits : verified_size book ≤ 1
unfolding verified_size
fits = omega arith

add_peers-keeps_reached_example :
    (r : BookRecord) × (lookup (1 ∷ []) (add_peers net sorter book (some carol ∷ []) today).peers
      ≡ some r)
    × (r.last_ok ≡ today)
unfolding text_eq
add_peers-keeps_reached_example =
    add_peers-keeps_reached net sorter book (some carol ∷ []) today (1 ∷ []) alice_record
      book-IsValid fits refl refl

run-IsValid_example : IsValid net (
    run net sorter book (
      adds (some carol ∷ none ∷ []) today
      ∷ attempts (some bob) today
      ∷ succeeds (some carol) today
      ∷ drops 1
      ∷ []))
run-IsValid_example =
    run-IsValid net sorter book
      (adds (some carol ∷ none ∷ []) today
        ∷ attempts (some bob) today
        ∷ succeeds (some carol) today
        ∷ drops 1
        ∷ [])
      book-IsValid

collect_records-IsTopOf_example :
    IsTopOf older_news 1
      (select (is_stale_proven 5 (today + 100)) (records book))
      (collect_records sorter (is_stale_proven 5 (today + 100)) older_news 1 book)
collect_records-IsTopOf_example =
    collect_records-IsTopOf sorter (is_stale_proven 5 (today + 100)) older_news
      older_news-IsWeakOrder 1 book

book-CanReload : All (CanReload net today book.self) book.peers
unfolding text_eq
book-CanReload = (
  (refl, refl, omega arith, inr (omega arith), inr (omega arith)),
  ((refl, refl, omega arith, inl refl, inl refl), tt),
)

own_mentioned :
    (save net book
      (λ c. apply_each net c (mentions (some seed ∷ []) today ∷ []))
      true
      missing).0.dirty
    ≡ false
unfolding save snapshot settle apply_each add_each add_peer admissible text_eq
own_mentioned = refl

save-loses_no_change_example :
    (let out =
        save net book (λ c. apply_each net c (mentions (some seed ∷ []) today ∷ [])) true missing in
      out.1 ≡ holds (map (to_entry net) (values out.0.peers)))
save-loses_no_change_example =
    save-loses_no_change net book (mentions (some seed ∷ []) today ∷ []) missing refl (omega arith)
      (omega arith) own_mentioned

save-misses_eviction_example :
    (let out = save net book (λ c. add_peers net sorter c [] today) true missing in
      (out.0.dirty ≡ false)
      × (out.1 ≡ holds (map (to_entry net) (values book.peers)))
      × (length out.0.peers < 2))
save-misses_eviction_example =
    save-misses_eviction net sorter book today missing book-IsValid refl (omega arith)
