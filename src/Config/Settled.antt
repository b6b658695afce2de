-- ===== src/Config/Settled.antt =====
-- The configuration that `main` of cmd/tenderseed/main.go gives to a command that opens a home.
use tenderseed.Common.{
  ◌≢◌, true≢false, sym, ◌∙◌, text_eq_iff, [], ◌≡◌, refl, ◌⊎◌, inl, inr, Bool, true, false, not,
  Option, none, some, if◌then◌else◌, Text, text_eq, Bool-cases, Option-cases, none≢some, some-path,
  subst,
}
use tenderseed.Config.{
  Config, Stack, ok, error, stack_named, seed_stack, check_stack_flag, overridden, with_overrides,
}
use tenderseed.Config.Checks.{check_stack_flag_iff}
use tenderseed.Config.Files.{ConfigFile, Toml, load_or_gen_config}

-- The flags of the command line and the variables of the environment.
pub record Overrides : Type 0 where
  pub stack : Text
  pub chain_flag : Text
  pub chain_env : Text
  pub seeds_flag : Text
  pub seeds_env : Text

-- `if _, err := (tenderseed.Config{Stack: *stack}).SeedStack(); err != nil`
unfoldable pub is_known_flag : Text → Bool
is_known_flag flag =
    if text_eq flag [] then true else elim (stack_named flag) [ ok s ↦ true | error e ↦ false ]

-- The overrides, and the check of the flag behind them; none where `main` fails.
checked : Overrides → Option Config → Option Config
checked o none = none
checked o (some loaded) =
    let config = with_overrides o.chain_flag o.chain_env o.seeds_flag o.seeds_env loaded in
    elim (check_stack_flag config o.stack) [ none ↦ some config | some e ↦ none ]

-- The two commands that open a home: the configuration, none where `main` fails, and the file. `written` is
-- whether a new file can be written.
unfoldable pub settle_config : Toml → Bool → ConfigFile → Overrides → Option Config × ConfigFile
unfolding is_known_flag checked
settle_config toml written file o =
    if not (is_known_flag o.stack)
    then (none, file)
    else let loaded = load_or_gen_config toml written file o.stack in (checked o loaded.0, loaded.1)

-- A value that is overridden: the flag where there is one, else the variable where there is one, else what the
-- file says.
abbrev pub IsOverridden : (flag env file value : Text) → Type 0
IsOverridden flag env file value =
    ((flag ≢ []) × (value ≡ flag))
    ⊎ (((flag ≡ []) × (env ≢ []) × (value ≡ env)) ⊎ ((flag ≡ []) × (env ≡ []) × (value ≡ file)))

overridden-IsOverridden :
    (flag env file : Text) → IsOverridden flag env file (overridden flag env file)
unfolding overridden
overridden-IsOverridden flag env file = elim (Bool-cases (text_eq flag [])) [
  | inr given ↦
      inl (λ e. absurd (true≢false (sym ((text_eq_iff flag []).1 e) ∙ given)), rw given refl)
  | inl empty ↦ elim (Bool-cases (text_eq env [])) [
    | inr set ↦ inr (
        inl (
          (text_eq_iff flag []).0 empty,
          λ e. absurd (true≢false (sym ((text_eq_iff env []).1 e) ∙ set)),
          rw (empty, set) refl,
        ))
    | inl unset ↦
        inr (
          inr ((text_eq_iff flag []).0 empty, (text_eq_iff env []).0 unset, rw (empty, unset) refl))
  ]
]

-- What the configuration of a command has to do with what is on disk.
pub record IsSettled (toml : Toml) (written : Bool) (file : ConfigFile) (o : Overrides)
    (config : Config) : Type 0 where
  pub loaded : Config
  pub found : (load_or_gen_config toml written file o.stack).0 ≡ some loaded
  pub only : config ≡ record loaded { chain_id = config.chain_id; seeds = config.seeds }
  pub agrees :
      (o.stack ≡ []) ⊎ ((s : Stack) × (stack_named o.stack ≡ ok s) × (seed_stack config ≡ ok s))
  pub chain_id : IsOverridden o.chain_flag o.chain_env loaded.chain_id config.chain_id
  pub seeds : IsOverridden o.seeds_flag o.seeds_env loaded.seeds config.seeds

-- A command that opens a home runs with the configuration of the file, or the one that a first run writes, in which
-- only the chain and the seeds are overridden: its stack is that of the file, and a stack flag is empty or
-- names it.
pub settle_config-IsSettled :
    (toml : Toml) (written : Bool) (file : ConfigFile) (o : Overrides) {config : Config}
    → (settle_config toml written file o).0 ≡ some config
    → IsSettled toml written file o config
unfolding settle_config checked with_overrides
settle_config-IsSettled toml written file o {config} h =
    elim (Bool-cases (not (is_known_flag o.stack))) [
      | inl unknown ↦ absurd (none≢some (rw (unknown, settle_config) at h))
      | inr known ↦ elim (Option-cases (load_or_gen_config toml written file o.stack).0) [
        | inl failed ↦ absurd (none≢some (rw (known, failed, settle_config) at h))
        | inr (loaded, found) ↦
            let made : Config =
              with_overrides o.chain_flag o.chain_env o.seeds_flag o.seeds_env loaded in
            elim (Option-cases (check_stack_flag made o.stack)) [
              | inr (e, refused) ↦ absurd (none≢some (rw (known, found, checked, refused) at h))
              | inl passes ↦
                  let same : made ≡ config = some-path (rw (known, found, checked, passes) at h) in
                  subst (IsSettled toml written file o) same (record {
                    loaded = loaded;
                    found = found;
                    only = refl;
                    agrees = (check_stack_flag_iff made o.stack).0 passes;
                    chain_id = overridden-IsOverridden o.chain_flag o.chain_env loaded.chain_id;
                    seeds = overridden-IsOverridden o.seeds_flag o.seeds_env loaded.seeds;
                  })
            ]
      ]
    ]
