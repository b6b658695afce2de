-- ===== src/Tests/Configs.antt =====
-- The properties of the configuration of internal/tenderseed/config.go at the default one.
use mathlib.Core.Logic.{◌↔◌}
use tenderseed.Common.{[], ◌∷◌, ◌≡◌, refl, true, none, some, text_eq, if◌then◌else◌}
use tenderseed.Config.{
  Config, Stack, ok, stack_tm2, stack_named, validate, check_stack_flag, default_config,
}
use tenderseed.Config.Checks.{IsUsable, validate_iff}
use tenderseed.Config.Files.{
  absent, Toml, ReadsBack, new_config, load_or_gen_config, load_or_gen_config-again,
}

validate_iff_example : (validate default_config ≡ none) ↔ IsUsable default_config
validate_iff_example = validate_iff default_config

-- Only the configuration of a new TM2 home is written, as the text 1, and read.
abbrev home : Config
home = record default_config { stack = stack_tm2 }

abbrev toml : Toml
toml = record {
  decode = λ text base. some home;
  encode = λ config. if text_eq config.stack stack_tm2 then some (1 ∷ []) else none;
  keys = λ text. some ((1 ∷ []) ∷ (2 ∷ []) ∷ []);
}

toml-ReadsBack : ReadsBack toml home
toml-ReadsBack base text h = refl

made : (load_or_gen_config toml true absent stack_tm2).0 ≡ some home
unfolding load_or_gen_config new_config text_eq
made = refl

load_or_gen_config-again_example :
    let file = (load_or_gen_config toml true absent stack_tm2).1 in
    ((load_or_gen_config toml true file []).0 ≡ some home)
    × ((load_or_gen_config toml true file []).1 ≡ file)
    × ((s : Stack) → stack_named stack_tm2 ≡ ok s → check_stack_flag home stack_tm2 ≡ none)
load_or_gen_config-again_example =
    load_or_gen_config-again toml stack_tm2 [] home toml-ReadsBack made
