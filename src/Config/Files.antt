-- ===== src/Config/Files.antt =====
-- A configuration on disk, internal/tenderseed/config.go: `LoadOrGenConfig`, `LoadConfigFromFile`,
-- `WriteConfigToFile` and `UnknownKeys`.
use mathlib.Core.Logic.{◌↔◌}
use tenderseed.Common.{
  sym, ◌≡◌, refl, ◌∙◌, ap, List, [], ◌∷◌, Bool, true, false, not, Option, none, some, inl, inr,
  arith, if◌then◌else◌, Text, text_eq, text_eq_iff, Mem, select, mem-select, select-mem, Bool-cases,
  Option-cases, some-path, none≢some, subst,
}
use mathlib.Core.List.Perm
use tenderseed.Common.Sorting.{Sorter}
use tenderseed.Config.{Config, Stack, ok, stack_named, seed_stack, check_stack_flag, default_config}
use tenderseed.Config.Checks.{check_stack_flag_iff}

-- What is found at a path.
pub data ConfigFile : Type 0 where
  absent : ConfigFile
  unreadable : ConfigFile
  holds : Text → ConfigFile

-- Reads a TOML text over a configuration, and writes a configuration; `keys` is none for a text that
-- cannot be parsed.
pub record Toml : Type 0 where
  pub decode : Text → Config → Option Config
  pub encode : Config → Option Text
  pub keys : Text → Option (List Text)

-- The text that a configuration is encoded to reads as it, whatever it is read over.
abbrev pub ReadsBack : Toml → Config → Type 0
ReadsBack toml config =
    (base : Config) (text : Text)
    → toml.encode config ≡ some text
    → toml.decode text base ≡ some config

unfoldable pub load_config : Toml → ConfigFile → Option Config
load_config toml absent = none
load_config toml unreadable = none
load_config toml (holds text) = toml.decode text default_config

-- The configuration that a first run makes.
unfoldable pub new_config : Text → Config
new_config stack =
    if text_eq stack [] then default_config else record default_config { stack = stack }

-- The write of a new file, `written` for whether it succeeds.
write_new : Toml → Bool → Config → Option Config × ConfigFile
write_new toml written config = elim (toml.encode config) [
  | none ↦ (none, absent)
  | some text ↦ if written then (some config, holds text) else (none, absent)
]

-- The configuration, none for an error, and the file.
unfoldable pub load_or_gen_config : Toml → Bool → ConfigFile → Text → Option Config × ConfigFile
unfolding new_config write_new load_config
load_or_gen_config toml written absent stack = write_new toml written (new_config stack)
load_or_gen_config toml written unreadable stack = (none, unreadable)
load_or_gen_config toml written (holds text) stack = (load_config toml (holds text), holds text)

-- The tags of the fields of `Config`.
unfoldable pub known_key : List Text → Text → Bool
known_key [] key = false
known_key (tag ∷ tags) key = if text_eq tag key then true else known_key tags key

unfoldable pub unknown_keys :
    Sorter Text → (Text → Text → Bool) → Toml → List Text → ConfigFile → List Text
unfolding known_key
unknown_keys sorter less toml tags absent = []
unknown_keys sorter less toml tags unreadable = []
unknown_keys sorter less toml tags (holds text) = elim (toml.keys text) [
  | none ↦ []
  | some keys ↦ sorter.sort less (select (λ key. not (known_key tags key)) keys)
]

-- For a file that can be parsed, the keys reported are exactly those of the file that no tag names.
pub unknown_keys_iff :
    (sorter : Sorter Text) (less : Text → Text → Bool) (toml : Toml) (tags : List Text)
    (text key : Text) (keys : List Text)
    → toml.keys text ≡ some keys
    → Mem key (unknown_keys sorter less toml tags (holds text))
      ↔ (Mem key keys × (known_key tags key ≡ false))
unfolding unknown_keys
unknown_keys_iff sorter less toml tags text key keys h =
    let pool = select (λ k. not (known_key tags k)) keys in
    rw (h, unknown_keys)
      (
        λ m.
            let (held, unknown) =
              mem-select (λ k. not (known_key tags k)) keys
                (Perm.subset (sorter.sort-perm less pool) key m) in
            (held, ground arith),
        λ (held, unknown).
            Perm.subset (Perm.symm (sorter.sort-perm less pool)) key
              (select-mem (λ k. not (known_key tags k)) keys held (ground arith)),
      )

-- If a first run could write the configuration that it made, and the text of that configuration
-- reads back as it: a later run finds the same configuration, whatever stack it names, and leaves
-- the file as it is; and a stack flag of the first run that names a stack passes there.
pub load_or_gen_config-again :
    (toml : Toml) (stack later : Text) (config : Config)
    → ReadsBack toml config
    → (load_or_gen_config toml true absent stack).0 ≡ some config
    → let file = (load_or_gen_config toml true absent stack).1 in
      ((load_or_gen_config toml true file later).0 ≡ some config)
      × ((load_or_gen_config toml true file later).1 ≡ file)
      × ((s : Stack) → stack_named stack ≡ ok s → check_stack_flag config stack ≡ none)
unfolding load_or_gen_config write_new new_config seed_stack
load_or_gen_config-again toml stack later config reads made =
    elim (Option-cases (toml.encode (new_config stack))) [
      | inl out ↦ absurd (none≢some (rw (out, write_new) at made))
      | inr (text, e) ↦
          let same : new_config stack ≡ config = some-path (rw (e, write_new) at made) in
          (
            rw (e, write_new) (reads default_config text (ap toml.encode (sym same) ∙ e)),
            rw (e, write_new) refl,
            λ s named. (check_stack_flag_iff config stack).1 (elim (Bool-cases (text_eq stack [])) [
              | inl empty ↦ inl ((text_eq_iff stack []).0 empty)
              | inr given ↦ inr (
                s,
                named,
                subst (λ c. seed_stack c ≡ ok s) same (rw (given, new_config, seed_stack) named),
              )
            ]),
          )
    ]
