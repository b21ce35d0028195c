-- ===== src/Broker/Tests.antt =====
-- The decision broker on a chair in front of the robot.
use mc_ai_bt.Common.{ℕ, String, true, false, none, some, [], ◌∷◌, ◌≡◌, refl, sym}
use mc_ai_bt.Common.Float.{of_ℕ, unit}
use mc_ai_bt.Json.{str, Fields, end, field, Runtime}
use mc_ai_bt.Json.Builtins.{Builtins}
use mc_ai_bt.Json.Number.{number}
use mc_ai_bt.Executor.{yes}
use mc_ai_bt.Broker.Locate.{Located, Reply, Spot, reply, locate, match_available_classes}
use mc_ai_bt.Broker.{
  Metric, Channels, by_approach, answered, entity_id, target, check_entity_approached, outcome,
}
use mc_ai_bt.Broker.Answers.{SeenAlone, approached_needs_one_instance}

abbrev runtime : Runtime
runtime = record { loads = λ raw. none; dumps = λ v. "{}"; show = λ v. "value"; quote = λ s. s }

-- Letters are in the right case already.
abbrev builtins : Builtins
builtins = record {
  rt = runtime;
  lower = λ s. s;
  upper = λ s. s;
  nfkc = λ s. s;
  casefold = λ s. s;
  to_float = λ v. number (some v);
  to_int = λ v. none;
  apart = λ a b. false;
  format = λ x. "1";
}

-- Distances along the first axis.
abbrev metric : Metric
metric = record { hypot = λ x y. x; digits = λ x. "1" }

abbrev chair : Spot
chair = record { x = of_ℕ 1; y = of_ℕ 0; z = of_ℕ 0; score = of_ℕ 1 }

abbrev answer : ℕ → Reply
answer n = reply true "" ("armchair" ∷ []) (chair ∷ [])

abbrev look : String → Located
look name = locate builtins true answer name

abbrev channels : Channels
channels = record {
  world = λ w. w ≡ none;
  locate = λ f. f ≡ look;
  has_checker = false;
  person_check = λ args o. Unit;
  confirm = λ predicate args a. Unit;
}

abbrev args : Fields
args = field "target" (str "chair") end

matches : match_available_classes builtins "chair" ("armchair" ∷ "table" ∷ []) ≡ "armchair" ∷ []
unfolding match_available_classes
matches = refl

there :
    check_entity_approached builtins metric none look args
    ≡ outcome yes "chair is 1m away (fresh check)"
unfolding check_entity_approached locate unit
there = refl

approached_needs_one_instance_example :
    (entity_id builtins args ≡ "")
    × ((f : String → Located) × (f ≡ look)
        × SeenAlone metric
            (f (target builtins args))
            (outcome yes "chair is 1m away (fresh check)"))
approached_needs_one_instance_example =
    approached_needs_one_instance builtins metric channels args
      (outcome yes "chair is 1m away (fresh check)")
      (by_approach refl (answered (none, look, refl, refl, sym there) (λ e. absurd (cc))))
      (λ e. absurd (cc))
