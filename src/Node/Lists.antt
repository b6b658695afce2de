-- ===== src/Node/Lists.antt =====
-- The level of the log and the list of seeds, internal/tenderseed/seedtm2.go.
use tenderseed.Common.{
  ℕ, ◌^◌, ◌-◌, List, [], ◌∷◌, ◌++◌, ◌≡◌, refl, ap, ◌∙◌, Bool, true, false, not, Option, none, some,
  inl, inr, ◌==◌, if◌then◌else◌, arith, Text, text_eq, All, Bool-cases,
}
use tenderseed.Common.Int.{ℤ, pos, negsuc}

-- The levels of `log/slog`, and the one above them all.
abbrev pub level_debug : ℤ
level_debug = negsuc 3

abbrev pub level_info : ℤ
level_info = pos 0

abbrev pub level_warn : ℤ
level_warn = pos 4

abbrev pub level_error : ℤ
level_error = pos 8

abbrev pub level_none : ℤ
level_none = pos (2 ^ 31 - 1)

abbrev pub debug_text : Text
debug_text = b'd' ∷ b'e' ∷ b'b' ∷ b'u' ∷ b'g' ∷ []

abbrev pub info_text : Text
info_text = b'i' ∷ b'n' ∷ b'f' ∷ b'o' ∷ []

abbrev pub warn_text : Text
warn_text = b'w' ∷ b'a' ∷ b'r' ∷ b'n' ∷ []

abbrev pub error_text : Text
error_text = b'e' ∷ b'r' ∷ b'r' ∷ b'o' ∷ b'r' ∷ []

abbrev pub none_text : Text
none_text = b'n' ∷ b'o' ∷ b'n' ∷ b'e' ∷ []

unfoldable pub slog_level : Text → Option ℤ
slog_level level =
    if text_eq level debug_text
    then some level_debug
    else if text_eq level []
    then some level_info
    else if text_eq level info_text
    then some level_info
    else if text_eq level warn_text
    then some level_warn
    else if text_eq level error_text
    then some level_error
    else if text_eq level none_text
    then some level_none
    else none

abbrev comma : ℕ
comma = b','

abbrev put_first : ℕ → List Text → List Text
put_first char [] = (char ∷ []) ∷ []
put_first char (part ∷ parts) = (char ∷ part) ∷ parts

-- `strings.Split(value, ",")`
unfoldable pub split_list : Text → List Text
split_list [] = [] ∷ []
split_list (char ∷ value) =
    let parts = split_list value in if char == comma then [] ∷ parts else put_first char parts

-- The loop of `splitAndTrimList`.
unfoldable pub trim_each : (Text → Text) → List Text → List Text
trim_each trim [] = []
trim_each trim (part ∷ parts) =
    let rest = trim_each trim parts in
    if not (text_eq (trim part) []) then trim part ∷ rest else rest

unfoldable pub split_and_trim_list : (Text → Text) → Text → List Text
unfolding split_list trim_each
split_and_trim_list trim value = trim_each trim (split_list value)

-- The parts, with a comma between each two.
abbrev pub join_list : List Text → Text
join_list [] = []
join_list (part ∷ []) = part
join_list (part ∷ (next ∷ parts)) = part ++ comma ∷ join_list (next ∷ parts)

abbrev has_comma : Text → Bool
has_comma [] = false
has_comma (char ∷ value) = if char == comma then true else has_comma value

abbrev pub IsPart : Text → Type 0
IsPart part = has_comma part ≡ false

-- A split value has a first part.
split_list-first :
    (value : Text) → (part : Text) × (parts : List Text) × (split_list value ≡ part ∷ parts)
unfolding split_list
split_list-first [] = ([], [], refl)
split_list-first (char ∷ value) =
    let (part, parts, e) = split_list-first value in
    elim (Bool-cases (char == comma)) [
      | inl c ↦ ([], part ∷ parts, rw (c, e, split_list) refl)
      | inr c ↦ (char ∷ part, parts, rw (c, e, split_list) refl)
    ]

join_put :
    (char : ℕ) (part : Text) (parts : List Text)
    → join_list ((char ∷ part) ∷ parts) ≡ char ∷ join_list (part ∷ parts)
join_put char part [] = refl
join_put char part (next ∷ parts) = refl

-- The parts of a list hold no comma, and joined by commas they are the list again.
pub split_list_lem :
    (value : Text) → (join_list (split_list value) ≡ value) × All IsPart (split_list value)
unfolding split_list
split_list_lem [] = (refl, (refl, tt))
split_list_lem (char ∷ value) =
    let (part, parts, e) = split_list-first value in
    let (joined, all) = split_list_lem value in
    let joined' : join_list (part ∷ parts) ≡ value = rw e at joined in
    let all' : All IsPart (part ∷ parts) = rw e at all in
    elim (Bool-cases (char == comma)) [
      | inl c ↦
          let same : char ≡ comma = ground arith in
          rw (c, e, split_list) (rw (joined', same) refl, (refl, all'))
      | inr c ↦
          rw (c, e, split_list)
            (join_put char part parts ∙ ap (◌∷◌ char) joined', (rw (c, has_comma) all'.0, all'.1))
    ]
