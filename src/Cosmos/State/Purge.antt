-- ===== src/Cosmos/State/Purge.antt =====
-- `purge` of internal/tenderseed/seedreactor.go: what it drops and what it must keep.
use tenderseed.Common.{
  ℕ, ◌<◌, ◌≡◌, refl, List, [], ◌∷◌, Bool, none, some, inl, inr, if◌then◌else◌, arith, Text,
  text_equality, text_eq_iff, Option-cases, none≢some,
}
use tenderseed.Common.Map.{lookup, Distinct}
use tenderseed.Common.Time.{elapsed}
use tenderseed.Cosmos.{VerifyState, CosmosReactor, skipped_fresh, skipped_backoff, verify_state_ttl}
use tenderseed.Cosmos.State.{wait_for, eligible, is_purged, purge_each, purge}
use tenderseed.Cosmos.State.Windows.{backoff_for_lem}

module _ {Addr : Type 0} (id_of : Addr → Text) where
  pub lookup-purge_each :
      (r : CosmosReactor Addr) (has_address : Addr → Bool) (now : ℕ) (id : Text)
      (m : List (Text × VerifyState Addr))
      → Distinct m
      → lookup id (purge_each id_of r has_address now m).0 ≡ elim (lookup id m) [
        | none ↦ none
        | some state ↦ if is_purged id_of r has_address now state then none else some state
      ]
  unfolding purge_each
  lookup-purge_each r has_address now id [] d = refl
  lookup-purge_each r has_address now id ((k, state) ∷ m) d =
      ground (arith, lookup-purge_each r has_address now id m, text_eq_iff k id)

  -- An address that is held back by its failures before a purge is still held back by them after
  -- it, whatever the book says.
  pub eligible-purge :
      (r : CosmosReactor Addr) (has_address : Addr → Bool) (addr : Addr) (now : ℕ)
      → Distinct r.state
      → eligible id_of r addr now ≡ some skipped_backoff
      → eligible id_of (purge id_of r has_address now).0 addr now ≡ some skipped_backoff
  unfolding eligible purge is_purged wait_for
  eligible-purge r has_address addr now d held = elim (Option-cases (lookup (id_of addr) r.state)) [
    | inl e ↦ absurd (none≢some (rw (e, eligible) at held))
    | inr (state, e) ↦ ground (
      arith,
      lookup-purge_each r has_address now (id_of addr) r.state d,
      backoff_for_lem state.fails,
    )
  ]

  -- An entry without failures that is older than eight hours is dropped even while its success is
  -- still trusted: an address that was held back before a purge may be dialled again right after
  -- it.
  pub eligible-purge_fresh :
      (r : CosmosReactor Addr) (has_address : Addr → Bool) (addr : Addr) (state : VerifyState Addr)
      (now : ℕ)
      → Distinct r.state
      → lookup (id_of addr) r.state ≡ some state
      → state.fails ≡ 0
      → verify_state_ttl < elapsed now state.last
      → elapsed now state.last < r.fresh_for
      → (eligible id_of r addr now ≡ some skipped_fresh)
        × (eligible id_of (purge id_of r has_address now).0 addr now ≡ none)
  unfolding eligible purge is_purged wait_for
  eligible-purge_fresh r has_address addr state now d found fresh old trusted =
      ground (arith, lookup-purge_each r has_address now (id_of addr) r.state d)
