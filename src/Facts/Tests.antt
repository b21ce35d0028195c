-- ===== src/Facts/Tests.antt =====
-- The updates of concrete executions.
use mc_ai_bt.Common.{Bool, false, none, [], ◌∷◌, ◌≡◌, refl, All}
use mc_ai_bt.Common.Text.{strip}
use mc_ai_bt.Json.{bool, str, dict, Fields, end, field, Runtime, text_or_empty}
use mc_ai_bt.Facts.{fact_update, world_fact_updates_for_execution}
use mc_ai_bt.Facts.Places.{Distinct, overwrites}
use mc_ai_bt.Facts.Apart.{updates_keep_apart}

abbrev runtime : Runtime
runtime = record { loads = λ raw. none; dumps = λ v. "{}"; show = λ v. "value"; quote = λ s. s }

abbrev said : Fields
said =
    field "say_submitted" (str " hello ")
      (field "reach_completed" (dict (field "matched" (bool Bool.true) end)) end)

one_update :
    world_fact_updates_for_execution runtime said
    ≡ fact_update "mc_ai_bt.skill.say" "robot" "last_utterance" (str "hello") ∷ []
unfolding world_fact_updates_for_execution text_or_empty strip
one_update = refl

updates_keep_apart_example :
    Distinct (world_fact_updates_for_execution runtime said)
    × All (λ u. overwrites u.scope u.key ≡ false) (world_fact_updates_for_execution runtime said)
updates_keep_apart_example = updates_keep_apart runtime said
