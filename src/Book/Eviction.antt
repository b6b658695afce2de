-- ===== src/Book/Eviction.antt =====
-- `evict` of internal/tenderseed/seedbook.go: which records go, and which stay.
use mathlib.Core.List.{mem-cons, mem-cons_self, mem-cons_of_mem, not-mem-nil}
use mathlib.Core.List.Perm
use mathlib.Core.Logic.Or
use tenderseed.Common.{
  ℕ, zero, suc, ◌-◌, ◌≤◌, List, [], ◌∷◌, ◌++◌, ◌≡◌, sym, subst, Bool, false, Option, some, inl, inr,
  arith, Text, text_equality, text_eq, text_eq_iff, some-path, All, Bool-cases, leb, length, take,
  drop, Mem, Perm, perm-length, none≢some, length-drop, length-map, length-take, take-append-drop,
}
use tenderseed.Common.Map.{
  lookup, delete, Distinct, values, delete-Distinct, delete-All, values-delete-perm,
}
use tenderseed.Common.Sorting.{Sorter, IsWeakOrder, IsSorted-cut}
use tenderseed.Address.{NetAddress, Net}
use tenderseed.Book.{BookRecord, SeedBook, evict_less, delete_first, evict}
use tenderseed.Book.Invariant.{EntryOk, IsValid}

pub evict_less-IsWeakOrder : IsWeakOrder evict_less
unfolding evict_less
evict_less-IsWeakOrder = record {
  asym = λ x y h. ground arith;
  cotrans = λ x y z h k. ground arith;
}

NetAddress-set : IsSet NetAddress
NetAddress-set = hlevel

BookRecord-set : IsSet (Option BookRecord)
BookRecord-set = hlevel

module _ (net : Net) (strict : Bool) where
  -- A record that the map holds is the one found under its address.
  pub lookup-values :
      (m : List (Text × BookRecord)) {r : BookRecord}
      → Distinct m
      → All (EntryOk net strict) m
      → Mem r (values m)
      → lookup (net.to_string r.addr) m ≡ some r
  lookup-values [] d a h = absurd (not-mem-nil h)
  lookup-values ((k, w) ∷ m) {r} d a h =
      Or.elim (BookRecord-set _ _) (mem-cons.0 h) here (λ t. there (lookup-values m d.1 a.1 t))
    where
      here : r ≡ w → lookup (net.to_string r.addr) ((k, w) ∷ m) ≡ some r
      here e =
          subst (λ z. lookup (net.to_string z.addr) ((k, w) ∷ m) ≡ some z) (sym e)
            (rw ((text_eq_iff k (net.to_string w.addr)).1 a.0.0))

      there :
          lookup (net.to_string r.addr) m ≡ some r
          → lookup (net.to_string r.addr) ((k, w) ∷ m) ≡ some r
      there f = ground (arith, text_eq_iff k (net.to_string r.addr))

  pub mem-values :
      (k : Text) (m : List (Text × BookRecord)) {r : BookRecord}
      → lookup k m ≡ some r
      → Mem r (values m)
  mem-values k [] h = absurd (none≢some h)
  mem-values k ((j, w) ∷ m) h = elim (Bool-cases (text_eq j k)) [
    | inl same ↦ mem-cons.1 (Or.inl (some-path (sym (rw same at h))))
    | inr other ↦ mem-cons_of_mem w (mem-values k m (rw other at h))
  ]

  -- What is left when the first `n` records are deleted is the other records.
  pub delete_first-perm :
      (n : ℕ) (rs : List BookRecord) (m : List (Text × BookRecord))
      → Distinct m
      → All (EntryOk net strict) m
      → Perm rs (values m)
      → Perm (values (delete_first net n rs m)) (drop n rs)
  unfolding delete_first
  delete_first-perm zero rs m d a p = Perm.symm p
  delete_first-perm (suc n) [] m d a p = Perm.symm p
  delete_first-perm (suc n) (r ∷ rs) m d a p =
      let found = lookup-values m d a (Perm.subset p r mem-cons_self) in
      delete_first-perm n rs (delete (net.to_string r.addr) m) (delete-Distinct _ m d)
        (delete-All (EntryOk net strict) _ m a)
        (Perm.cons_inv (Perm.trans p (values-delete-perm _ m d found)))

module _ (net : Net) (sorter : Sorter BookRecord) (b : SeedBook) (v : IsValid net b) where
  order : List BookRecord
  order = sorter.sort evict_less (values b.peers)

  abbrev surplus : ℕ
  surplus = length b.peers - b.max_peers

  -- An eviction leaves the records behind the surplus in the order of eviction.
  evict-perm : Perm (values (evict net sorter b).peers) (drop surplus order)
  unfolding evict order
  evict-perm = elim (Bool-cases (leb (length b.peers) b.max_peers)) [
    | inl fits ↦
        let none_over : length b.peers - b.max_peers ≡ 0 = ground arith in
        rw (fits, none_over) (Perm.symm (sorter.sort-perm evict_less (values b.peers)))
    | inr over ↦ rw over (
        delete_first-perm net b.strict surplus order b.peers v.distinct v.held
          (sorter.sort-perm evict_less (values b.peers)))
  ]

  -- `AddPeers` and eviction leave at most `max_peers` addresses.
  pub length-evict : length (evict net sorter b).peers ≤ b.max_peers
  unfolding order
  length-evict = omega (
    arith,
    perm-length evict-perm,
    length-drop surplus order,
    perm-length (sorter.sort-perm evict_less (values b.peers)),
    length-map (λ (e : Text × BookRecord). e.1) b.peers,
    length-map (λ (e : Text × BookRecord). e.1) (evict net sorter b).peers,
  )

  -- An eviction takes away as many records as are over the limit and changes none of the others, and
  -- no record that it keeps comes before one that it takes away: the never reached go first, the
  -- oldest mention first, and then the reached, the oldest proof first.
  pub evict_split :
      (gone : List BookRecord) × Perm (values b.peers) (gone ++ values (evict net sorter b).peers)
      × (length gone ≡ length b.peers - b.max_peers)
      × ((x y : BookRecord)
          → Mem x gone
          → Mem y (values (evict net sorter b).peers)
          → evict_less y x ≡ false)
  unfolding order
  evict_split = (
    take surplus order,
    Perm.trans (Perm.symm sorted) (
        Perm.trans (rw (take-append-drop surplus order) Perm.rfl)
          (Perm.append_left (take surplus order) (Perm.symm evict-perm))),
    omega (
      arith,
      length-take surplus order,
      perm-length sorted,
      length-map (λ (e : Text × BookRecord). e.1) b.peers,
    ),
    λ x y mx my.
        IsSorted-cut evict_less surplus order
          (sorter.sort-IsSorted evict_less (values b.peers) evict_less-IsWeakOrder) mx
          (Perm.subset evict-perm y my),
  )
    where
      sorted : Perm (sorter.sort evict_less (values b.peers)) (values b.peers)
      sorted = sorter.sort-perm evict_less (values b.peers)
