-- ===== src/Entity/Tests.antt =====
-- Entity facts on concrete inputs.
use mc_ai_bt.Common.{true, false, none, some, ◌≡◌, refl}
use mc_ai_bt.Common.Int.{pos, ◌≤ℤ◌}
use mc_ai_bt.Common.Float.{InUnit}
use mc_ai_bt.Common.Text.{strip, squeeze, is_space}
use mc_ai_bt.Json.{int, str, bool, Fields, end, field, Runtime}
use mc_ai_bt.Json.Builtins.{Builtins}
use mc_ai_bt.Json.Number.{number}
use mc_ai_bt.Entity.{normalise_entity_name, min_score_from_args, min_count_from_args}
use mc_ai_bt.Entity.Seen.{limits_in_bounds}

abbrev runtime : Runtime
runtime = record { loads = λ raw. none; dumps = λ v. "{}"; show = λ v. "value"; quote = λ s. s }

abbrev builtins : Builtins
builtins = record {
  rt = runtime;
  lower = λ s. s;
  upper = λ s. s;
  nfkc = λ s. s;
  casefold = λ s. s;
  to_float = λ v. number (some v);
  to_int = λ v. some (pos 50);
  apart = λ a b. false;
  format = λ x. "1";
}

same_name : normalise_entity_name builtins " red_cup" ≡ "red cup"
unfolding normalise_entity_name strip squeeze is_space
same_name = refl

abbrev many : Fields
many = field "min_count" (int (pos 50)) end

limits_in_bounds_example :
    InUnit (min_score_from_args builtins many)
    × (pos 1 ≤ℤ min_count_from_args builtins many)
    × (min_count_from_args builtins many ≤ℤ pos 20)
limits_in_bounds_example = limits_in_bounds builtins many

abbrev cup : Fields
cup = field "object_name" (str "red_cup") (field "visible" (bool true) end)
