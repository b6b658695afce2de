-- ===== src/Config/Checks.antt =====
-- What the configuration of internal/tenderseed/config.go must be to pass.
use mathlib.Core.Logic.{◌↔◌}
use tenderseed.Common.{
  ℕ, ◌≤◌, ◌<◌, ◌≡◌, ◌⊎◌, refl, sym, ap, ◌∙◌, [], ◌∷◌, Bool, true, false, not, ◌&&◌, ◌||◌, none, inl,
  inr, ◌==◌, if◌then◌else◌, arith, Text, text_eq, text_eq_iff, All, Bool-cases, none≢some,
  true≢false,
}
use tenderseed.Common.Int.{ℤ, pos, negsuc, pos_part}
use tenderseed.Config.{
  Config, ConfigError, Stack, cosmos, tm2, Result, ok, error, stack_named, seed_stack, stack_cosmos,
  stack_tm2, printable_from, is_printable_ascii, validate, compare_stacks, check_stack_flag,
  is_positive, is_negative,
}

-- Every byte is printable.
abbrev pub Printable : Text → Type 0
Printable = All (λ c. (32 ≤ c) × (c ≤ 126))

-- Some byte is not a space.
abbrev pub has_visible : Text → Bool
has_visible [] = false
has_visible (c ∷ s) = not (c == 32) || has_visible s

error≢ok {ℓ} : {A : Type ℓ} {e : ConfigError} {a : A} → ◌≡◌ {A = Result A} (error e) (ok a) → ⊥
error≢ok h = cc

cosmos≢tm2 : ok cosmos ≡ ok tm2 → ⊥
cosmos≢tm2 h = cc

printable_from_lem :
    (trimmed : Bool) (s : Text)
    → (printable_from trimmed s ≡ true) ↔ (Printable s × ((trimmed || has_visible s) ≡ true))
unfolding printable_from
printable_from_lem trimmed [] = (λ h. (tt, ground arith), λ h. ground arith)
printable_from_lem trimmed (c ∷ s) =
    let rest = printable_from_lem (if c == 32 then trimmed else true) s in
    (
      λ h.
          let inside : printable_from (if c == 32 then trimmed else true) s ≡ true = ground arith in
          let (all, seen) = rest.0 inside in (((ground arith, ground arith), all), ground arith),
      λ (all, seen). let inside = rest.1 (all.1, ground arith) in ground arith,
    )

-- A value passes exactly when each of its bytes is printable ASCII and one is not a space.
pub is_printable_ascii_iff :
    (s : Text) → (is_printable_ascii s ≡ true) ↔ (Printable s × (has_visible s ≡ true))
unfolding is_printable_ascii
is_printable_ascii_iff s = printable_from_lem false s

Result-cases {ℓ} :
    {A : Type ℓ} (r : Result A) → ((a : A) × (r ≡ ok a)) ⊎ ((e : ConfigError) × (r ≡ error e))
Result-cases (ok a) = inl (a, refl)
Result-cases (error e) = inr (e, refl)

empty_or_printable :
    (s : Text)
    → (not (text_eq s []) && not (is_printable_ascii s)) ≡ false
    → (s ≡ []) ⊎ (is_printable_ascii s ≡ true)
empty_or_printable s h = ground (arith, text_eq_iff s [])

passes_printable :
    (s : Text)
    → (s ≡ []) ⊎ (is_printable_ascii s ≡ true)
    → (not (text_eq s []) && not (is_printable_ascii s)) ≡ false
passes_printable s h = ground (arith, text_eq_iff s [])

-- An integer of at least one, and of at least zero.
abbrev pub AtLeastOne : ℤ → Type 0
AtLeastOne z = (n : ℕ) × (z ≡ pos n) × (0 < n)

abbrev pub AtLeastZero : ℤ → Type 0
AtLeastZero z = (n : ℕ) × (z ≡ pos n)

-- A text that can be announced: empty, or of bytes from 32 to 126 of which one is not a space.
abbrev pub Announceable : Text → Type 0
Announceable s = (s ≡ []) ⊎ (Printable s × (has_visible s ≡ true))

-- What a configuration that passes has, said of its fields alone.
pub record IsUsable (config : Config) : Type 0 where
  pub stack :
      (config.stack ≡ [])
      ⊎ ((config.stack ≡ b'c' ∷ b'o' ∷ b's' ∷ b'm' ∷ b'o' ∷ b's' ∷ [])
          ⊎ (config.stack ≡ b't' ∷ b'm' ∷ b'2' ∷ []))
  pub inbound : AtLeastOne config.max_num_inbound_peers
  pub outbound : AtLeastOne config.max_num_outbound_peers
  pub payload : AtLeastOne config.max_packet_msg_payload_size
  pub workers : AtLeastZero config.peer_check_workers
  pub moniker : Announceable config.moniker
  pub chain_id : Announceable config.chain_id

-- The tests of `validate`, against what they stand for.
stack_named_iff :
    (name : Text)
    → ((s : Stack) × (stack_named name ≡ ok s))
      ↔ ((name ≡ []) ⊎ ((name ≡ stack_cosmos) ⊎ (name ≡ stack_tm2)))
unfolding stack_named text_eq
stack_named_iff name = (
  λ (s, h). elim (Bool-cases (text_eq name [] || text_eq name stack_cosmos)) [
    | inl e ↦ ground (arith, text_eq_iff name [], text_eq_iff name stack_cosmos)
    | inr e ↦ elim (Bool-cases (text_eq name stack_tm2)) [
      | inl f ↦ inr (inr ((text_eq_iff name stack_tm2).0 f))
      | inr f ↦ absurd (error≢ok (rw (e, f, stack_named) at h))
    ]
  ],
  λ h. elim h [
    | inl e ↦ (cosmos, rw (e, stack_named) refl)
    | inr (inl e) ↦ (cosmos, rw (e, stack_named) refl)
    | inr (inr e) ↦ (tm2, rw (e, stack_named) refl)
  ],
)

negsuc≢pos : {n m : ℕ} → negsuc n ≡ pos m → ⊥
negsuc≢pos h = cc

is_positive_iff : (z : ℤ) → (is_positive z ≡ true) ↔ AtLeastOne z
is_positive_iff (pos n) =
    (λ h. (n, refl, ground arith), λ (m, e, h). let same : n ≡ m = ap pos_part e in ground arith)
is_positive_iff (negsuc n) = (λ h. absurd (true≢false (sym h)), λ (m, e, h). absurd (negsuc≢pos e))

is_negative_iff : (z : ℤ) → (is_negative z ≡ false) ↔ AtLeastZero z
is_negative_iff (pos n) = (λ h. (n, refl), λ h. refl)
is_negative_iff (negsuc n) = (λ h. absurd (true≢false h), λ (m, e). absurd (negsuc≢pos e))

passes_text_test :
    (s : Text) → ((not (text_eq s []) && not (is_printable_ascii s)) ≡ false) ↔ Announceable s
passes_text_test s = (
  λ h. elim (empty_or_printable s h) [
    | inl e ↦ inl e
    | inr p ↦ inr ((is_printable_ascii_iff s).0 p)
  ],
  λ h. passes_printable s (elim h [ inl e ↦ inl e | inr p ↦ inr ((is_printable_ascii_iff s).1 p) ]),
)

-- A configuration passes exactly when its stack is empty, "cosmos" or "tm2", its three limits are at least one,
-- its number of workers is not negative, and its two names are empty or of printable ASCII bytes of which
-- one is not a space.
pub validate_iff : (config : Config) → (validate config ≡ none) ↔ IsUsable config
unfolding validate seed_stack
validate_iff config = (forward, backward)
  where
    forward : validate config ≡ none → IsUsable config
    forward h = elim (Result-cases (seed_stack config)) [
      | inr (e, bad) ↦ absurd (none≢some (sym (rw (bad, validate) at h)))
      | inl (s, known) ↦
          let rest = rw (known, validate) at h in
          record {
            stack = (stack_named_iff config.stack).0 (s, known);
            inbound = (is_positive_iff config.max_num_inbound_peers).0 (ground arith);
            outbound = (is_positive_iff config.max_num_outbound_peers).0 (ground arith);
            payload = (is_positive_iff config.max_packet_msg_payload_size).0 (ground arith);
            workers = (is_negative_iff config.peer_check_workers).0 (ground arith);
            moniker = (passes_text_test config.moniker).0 (ground arith);
            chain_id = (passes_text_test config.chain_id).0 (ground arith);
          }
    ]

    backward : IsUsable config → validate config ≡ none
    backward u =
        let (s, known) = (stack_named_iff config.stack).1 u.stack in
        rw
          (
            known,
            (is_positive_iff config.max_num_inbound_peers).1 u.inbound,
            (is_positive_iff config.max_num_outbound_peers).1 u.outbound,
            (is_positive_iff config.max_packet_msg_payload_size).1 u.payload,
            (is_negative_iff config.peer_check_workers).1 u.workers,
            (passes_text_test config.moniker).1 u.moniker,
            (passes_text_test config.chain_id).1 u.chain_id,
            validate,
          )
          refl

compare_stacks_iff :
    (wanted current : Result Stack)
    → (compare_stacks wanted current ≡ none) ↔ ((s : Stack) × (wanted ≡ ok s) × (current ≡ ok s))
unfolding compare_stacks
compare_stacks_iff (error e) current =
    (λ h. absurd (none≢some (sym h)), λ (s, w, c). absurd (error≢ok w))
compare_stacks_iff (ok wanted) (error e) =
    (λ h. absurd (none≢some (sym h)), λ (s, w, c). absurd (error≢ok c))
compare_stacks_iff (ok cosmos) (ok cosmos) = (λ h. (cosmos, refl, refl), λ _. refl)
compare_stacks_iff (ok cosmos) (ok tm2) =
    (λ h. absurd (none≢some (sym h)), λ (s, w, c). absurd (cosmos≢tm2 (w ∙ sym c)))
compare_stacks_iff (ok tm2) (ok cosmos) =
    (λ h. absurd (none≢some (sym h)), λ (s, w, c). absurd (cosmos≢tm2 (c ∙ sym w)))
compare_stacks_iff (ok tm2) (ok tm2) = (λ h. (tm2, refl, refl), λ _. refl)

-- A flag passes exactly when it is empty, or when it names the stack that the configuration names: it
-- may confirm the stack of an established home and never change it.
pub check_stack_flag_iff :
    (config : Config) (flag : Text)
    → (check_stack_flag config flag ≡ none)
      ↔ ((flag ≡ []) ⊎ ((s : Stack) × (stack_named flag ≡ ok s) × (seed_stack config ≡ ok s)))
unfolding check_stack_flag
check_stack_flag_iff config flag = elim (Bool-cases (text_eq flag [])) [
  | inl empty ↦ (λ _. inl ((text_eq_iff flag []).0 empty), λ _. rw (empty, check_stack_flag) refl)
  | inr given ↦ (
    λ h. inr (
        (compare_stacks_iff (stack_named flag) (seed_stack config)).0
          (rw (given, check_stack_flag) at h)),
    λ h. elim h [
      | inl empty ↦ absurd (true≢false (sym ((text_eq_iff flag []).1 empty) ∙ given))
      | inr same ↦
          rw (given, check_stack_flag)
            ((compare_stacks_iff (stack_named flag) (seed_stack config)).1 same)
    ],
  )
]
