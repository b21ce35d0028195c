-- ===== src/Visual/Fallback.antt =====
-- mc_ai_bt/visual_client.py: `MissionCheckExecutor`, the checks of a mission with the visual model as
-- their fallback. `look` is what the visual check answers for a goal.
use mc_ai_bt.Common.{
  String, Bool, true, false, ◌==◌, Option, none, some, ◌≡◌, refl, ap, if◌then◌else◌, arith, eq_iff,
}
use mc_ai_bt.Common.Text.{contains, ◌<>◌}
use mc_ai_bt.Json.{Value, dict, str, Fields, get, text_or_empty}
use mc_ai_bt.Json.Builtins.{Builtins}
use mc_ai_bt.Executor.{ExecutionResult, unknown}
use mc_ai_bt.Visual.{is_str}
use mc_ai_bt.Visual.Client.{Observation, observed}
use mc_ai_bt.Goal.Direct.{CheckResult}
use mc_ai_bt.Goal.World.{Tools, decided}
use mc_ai_bt.Goal.{Provider, check}

abbrev mode_allows : Builtins → Option Value → Bool
mode_allows py (some (dict verification)) =
    contains "visual_check" (text_or_empty py.rt (get "mode" verification))
mode_allows py v = false

-- `_allows_visual_fallback`
unfoldable pub allows_visual_fallback : Builtins → Fields → Bool
allows_visual_fallback py goal =
    if is_str "visual" (get "type" goal)
    then true
    else if is_str "structured" (get "type" goal)
    then false
    else mode_allows py (get "verification" goal)

abbrev or_unseen : CheckResult → Observation → Observation
or_unseen r visual =
    if decided visual.state
    then visual
    else observed unknown (r.message <> "; VisualCheck UNKNOWN: " <> visual.message)

abbrev pub with_fallback : Bool → CheckResult → Observation → Observation
with_fallback allowed r visual =
    if decided r.state
    then observed r.state r.message
    else if allowed
    then or_unseen r visual
    else observed r.state r.message

abbrev pub mission_answer :
    Builtins
    → (Fields → Fields → Observation)
    → Fields
    → Fields
    → Option CheckResult
    → Option Observation
mission_answer py look goal facts none = none
mission_answer py look goal facts (some r) =
    some (with_fallback (allows_visual_fallback py goal) r (look goal facts))

-- `MissionCheckExecutor.check`
unfoldable pub mission_check :
    Tools
    → Option Provider
    → (Fields → Fields → Observation)
    → Fields
    → ExecutionResult
    → Option Observation
mission_check t provider look goal execution =
    mission_answer t.py look goal execution.facts (check t provider goal execution)

is_str_other :
    (a b : String) (v : Option Value) → (a == b) ≡ false → is_str a v ≡ true → is_str b v ≡ false
is_str_other a b (some (str s)) other e = ground (arith, eq_iff s a, other)
is_str_other a b none other e = cc
is_str_other a b (some Value.null) other e = cc
is_str_other a b (some (Value.bool c)) other e = cc
is_str_other a b (some (Value.int n)) other e = cc
is_str_other a b (some (Value.float x)) other e = cc
is_str_other a b (some (Value.list xs)) other e = cc
is_str_other a b (some (dict d)) other e = cc

without_fallback :
    (r : CheckResult) (visual : Observation)
    → with_fallback false r visual ≡ observed r.state r.message
without_fallback r visual = ground arith

-- The verdict on a structured goal is that of the goal checker, whatever the visual model would answer
-- and whatever verification the goal asks for.
pub structured_is_not_seen :
    (t : Tools) (provider : Option Provider) (look : Fields → Fields → Observation) (goal : Fields)
    (execution : ExecutionResult) {r : CheckResult}
    → is_str "structured" (get "type" goal) ≡ true
    → check t provider goal execution ≡ some r
    → mission_check t provider look goal execution ≡ some (observed r.state r.message)
unfolding mission_check allows_visual_fallback
structured_is_not_seen t provider look goal execution {r} structured checked =
    rw (checked, is_str_other "structured" "visual" (get "type" goal) refl structured, structured)
      (ap some (without_fallback r (look goal execution.facts)))
