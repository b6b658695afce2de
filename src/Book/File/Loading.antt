-- ===== src/Book/File/Loading.antt =====
-- What `NewSeedBook` of internal/tenderseed/seedbook.go makes of a file that anyone may have written.
use tenderseed.Common.{
  ℕ, List, [], ◌∷◌, ◌≡◌, refl, ◌||◌, Bool, not, some, inl, inr, arith, text_equality, Bool-cases,
  Option-cases, some-path, none≢some, subst,
}
use tenderseed.Address.{NetAddress, Net}
use tenderseed.Book.{SeedBook, admissible}
use tenderseed.Book.File.{
  Disk, new_seed_book, load, load_each, load_entry, empty_book, missing, stat_fails, read_fails,
  corrupt, holds, BookEntry,
}
use tenderseed.Book.Invariant.{IsValid, put-IsValid}

module _ (net : Net) where
  load_entry-IsValid :
      (now : ℕ) (b : SeedBook) (e : BookEntry)
      → IsValid net b
      → IsValid net (load_entry net now b e)
  unfolding load_entry admissible
  load_entry-IsValid now b e v = elim (Option-cases (net.from_string e.addr)) [
    | inl bad ↦ rw (bad, load_entry) v
    | inr (addr, q) ↦
        elim (Bool-cases (not (admissible net b (some addr)) || net.same addr b.self)) [
          | inl refused ↦ rw (q, refused, load_entry) v
          | inr taken ↦ rw (q, taken, load_entry) (put-IsValid net b addr _ v refl (ground arith))
        ]
  ]

  load_each-IsValid :
      (now : ℕ) (b : SeedBook) (es : List BookEntry)
      → IsValid net b
      → IsValid net (load_each net now b es)
  unfolding load_each
  load_each-IsValid now b [] v = v
  load_each-IsValid now b (e ∷ es) v =
      load_each-IsValid now (load_entry net now b e) es (load_entry-IsValid now b e v)

  load-IsValid :
      (b : SeedBook) (disk : Disk) (now : ℕ) {out : SeedBook}
      → IsValid net b
      → load net b disk now ≡ some out
      → IsValid net out
  unfolding load
  load-IsValid b missing now v h = subst (IsValid net) (some-path h) v
  load-IsValid b stat_fails now v h = absurd (none≢some h)
  load-IsValid b read_fails now v h = absurd (none≢some h)
  load-IsValid b corrupt now v h = subst (IsValid net) (some-path h) v
  load-IsValid b (holds es) now v h =
      subst (IsValid net) (some-path h) (load_each-IsValid now b es v)

  -- Whatever the file holds, repeated or foreign addresses included, a book that opens is valid.
  pub new_seed_book-IsValid :
      (self : NetAddress) (strict : Bool) (disk : Disk) (now : ℕ) {b : SeedBook}
      → new_seed_book net self strict disk now ≡ some b
      → IsValid net b
  unfolding new_seed_book
  new_seed_book-IsValid self strict disk now h =
      load-IsValid (empty_book net self strict) disk now (record { distinct = tt; held = tt }) h
