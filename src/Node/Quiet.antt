-- ===== src/Node/Quiet.antt =====
-- The log handler of the TM2 stack, internal/tenderseed/seedquiet.go. The values of the attributes and
-- the inner handler are code of the standard library's users: whether a value is the error
-- `errSeedServed`, or wraps it, is a parameter.
use tenderseed.Common.{
  ℕ, List, [], ◌∷◌, ◌≡◌, refl, ◌⊎◌, inl, inr, Bool, true, false, not, ◌&&◌, ◌||◌, Option, none,
  some, if◌then◌else◌, ◌==◌, arith, Text, text_eq, select, mem-select, select-mem, Mem, ◌↔◌,
  Bool-cases,
}
use tenderseed.Common.Int.{ℤ, pos, negsuc}
use tenderseed.Node.Lists.{level_info}

pub record Attr (Value : Type 0) : Type 0 where
  pub key : Text
  pub value : Value

pub record LogRecord (Value : Type 0) : Type 0 where
  pub time : ℕ
  pub level : ℤ
  pub message : Text
  pub attrs : List (Attr Value)

-- "hung up after serving"
abbrev pub hang_up_message : Text
hang_up_message =
    b'h' ∷ b'u' ∷ b'n' ∷ b'g' ∷ b' ' ∷ b'u' ∷ b'p' ∷ b' ' ∷ b'a' ∷ b'f' ∷ b't' ∷ b'e' ∷ b'r' ∷ b' '
    ∷ b's' ∷ b'e' ∷ b'r' ∷ b'v' ∷ b'i' ∷ b'n' ∷ b'g' ∷ []

abbrev pub err_key : Text
err_key = b'e' ∷ b'r' ∷ b'r' ∷ []

-- `record.Level == slog.LevelError`
abbrev pub is_error : ℤ → Bool
is_error (pos n) = n == 8
is_error (negsuc n) = false

module _ {Value : Type 0} (is_seed_served : Value → Bool) where
  -- The loop of `carriesSeedServed`, which stops at the first.
  unfoldable pub carries : List (Attr Value) → Bool
  carries [] = false
  carries (attr ∷ attrs) = if is_seed_served attr.value then true else carries attrs

  unfoldable pub carries_seed_served : LogRecord Value → Bool
  unfolding carries
  carries_seed_served r = carries r.attrs

  -- `Handle`: the record that the inner handler is given, if any. `enabled` is its `Enabled`.
  unfoldable pub handle : (ℤ → Bool) → LogRecord Value → Option (LogRecord Value)
  unfolding carries_seed_served
  handle enabled r =
      if not (is_error r.level) || not (carries_seed_served r)
      then some r
      else if not (enabled level_info)
      then none
      else some (record {
        time = r.time;
        level = level_info;
        message = hang_up_message;
        attrs = select (λ attr. not (text_eq attr.key err_key)) r.attrs;
      })

  -- A record of a hang-up after serving: what the switch logs, at the error level, with that reason.
  abbrev pub is_hang_up : LogRecord Value → Bool
  is_hang_up r = is_error r.level && carries_seed_served r

  -- What becomes of a hang-up: a record at the info level, of the same time, with every attribute but the
  -- error; or none, where that level is off.
  pub record IsQuieted (r out : LogRecord Value) : Type 0 where
    pub level : out.level ≡ level_info
    pub message : out.message ≡ hang_up_message
    pub time : out.time ≡ r.time
    pub attrs :
        (attr : Attr Value)
        → Mem attr out.attrs ↔ (Mem attr r.attrs × (text_eq attr.key err_key ≡ false))

  -- A hang-up after serving never reaches the inner handler at the error level: it is told at the info level, with
  -- all that was known but the error, or not at all where that level is off. Any other record, errors
  -- included, is handed on as it is.
  pub handle_lem :
      (enabled : ℤ → Bool) (r : LogRecord Value)
      → ((is_hang_up r ≡ false) × (handle enabled r ≡ some r))
        ⊎ ((is_hang_up r ≡ true)
            × (((enabled level_info ≡ false) × (handle enabled r ≡ none))
                ⊎ ((out : LogRecord Value) × (handle enabled r ≡ some out) × IsQuieted r out)))
  unfolding handle
  handle_lem enabled r = elim (Bool-cases (is_hang_up r)) [
    | inr other ↦ inl (other, ground arith)
    | inl ours ↦ elim (Bool-cases (enabled level_info)) [
      | inr off ↦ inr (ours, inl (off, ground arith))
      | inl on ↦
          let out : LogRecord Value = record {
            time = r.time;
            level = level_info;
            message = hang_up_message;
            attrs = select (λ attr. not (text_eq attr.key err_key)) r.attrs;
          } in
          inr (
            ours,
            inr (
              out,
              ground arith,
              record {
                level = refl;
                message = refl;
                time = refl;
                attrs = λ attr. (
                  λ m.
                      let (held, kept) =
                        mem-select (λ (x : Attr Value). not (text_eq x.key err_key)) r.attrs m in
                      (held, ground arith),
                  λ (held, other).
                      select-mem (λ (x : Attr Value). not (text_eq x.key err_key)) r.attrs held
                        (ground arith),
                );
              },
            ),
          )
    ]
  ]
