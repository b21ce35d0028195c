-- ===== src/Validator/Resources.antt =====
-- resources_conflict and _collect_action_resources of mc_ai_bt/validator.py: which resources of two
-- branches exclude each other, and which resources a branch takes.
use mc_ai_bt.Common.{
  String, Bool, false, not, ◌&&◌, ◌||◌, ◌==◌, Option, none, some, List, [], ◌∷◌, ◌++◌,
  if◌then◌else◌,
}
use mc_ai_bt.Common.Text.{strip}
use mc_ai_bt.Json.{Value, str, list, dict, Items, nil, cons, Fields, end, field, get, truthy}

-- `name in names`.
unfoldable pub among : String → List String → Bool
among name [] = false
among name (n ∷ names) = n == name || among name names

abbrev pub body_children : List String
body_children = "left_arm" ∷ "right_arm" ∷ "gaze" ∷ "head" ∷ "torso" ∷ []

unfoldable pub resource_conflict_family : String → List String
unfolding among
resource_conflict_family resource =
    if resource == "body"
    then "body" ∷ body_children
    else if among resource body_children
    then resource ∷ "body" ∷ []
    else resource ∷ []

-- The test of `resources_conflict` on stripped names.
unfoldable pub names_conflict : String → String → Bool
unfolding among resource_conflict_family
names_conflict left right =
    not (left == "")
    && not (right == "")
    && (left == right
        || among right (resource_conflict_family left)
        || among left (resource_conflict_family right))

unfoldable pub resources_conflict : String → String → Bool
unfolding names_conflict strip
resources_conflict left right = names_conflict (strip left) (strip right)

-- What the validator asks of the skill registry.
pub record Skills : Type 0 where
  -- `has(name)`
  pub has : String → Bool
  -- `get(name).resources`
  pub resources : String → List String

-- The resources of a node, or `none` where the code raises a TypeError.
abbrev pub Collected : Type 0
Collected = Option (List String)

abbrev join : Collected → Collected → Collected
join (some a) (some b) = some (a ++ b)
join a b = none

-- How the code goes on with a node of this type; `type` may be missing or no text.
pub data Collects : Type 0 where
  own_skill children child nothing raises : Collects

unfoldable pub collects : Option Value → Collects
collects (some (str t)) =
    if t == "Action"
    then own_skill
    else if t == "Sequence" || t == "Fallback" || t == "Parallel"
    then children
    else if t == "Retry" || t == "Timeout"
    then child
    else nothing
collects (some (list xs)) = raises
collects (some (dict d)) = raises
collects v = nothing

unfoldable pub skill_resources : Skills → Option Value → List String
skill_resources skills (some (str skill)) = if skills.has skill then skills.resources skill else []
skill_resources skills v = []

-- What a loop over `value or []` finds that is not a list: the characters of a text and the keys of
-- an object are no objects, and a number cannot be looped over.
abbrev not_items : Value → Collected
not_items (str s) = some []
not_items (dict d) = some []
not_items v = if truthy v then none else some []

module _ (skills : Skills) where
  unfoldable mutual
    unfolding collects skill_resources get truthy

    -- `_collect_action_resources`
    pub collect : Value → Collected
    collect (dict d) = elim (collects (get "type" d)) [
      | own_skill ↦ some (skill_resources skills (get "skill" d))
      | children ↦ collect_children d
      | child ↦ collect_child d
      | nothing ↦ some []
      | raises ↦ none
    ]
    collect v = some []

    -- The loop over `node.get("children", []) or []`.
    pub collect_children : Fields → Collected
    collect_children end = some []
    collect_children (field k v rest) =
        if k == "children" then collect_value v else collect_children rest

    pub collect_value : Value → Collected
    collect_value (list xs) = collect_items xs
    collect_value v = not_items v

    pub collect_items : Items → Collected
    collect_items nil = some []
    collect_items (cons v rest) = join (collect v) (collect_items rest)

    -- The call for `node.get("child")`.
    pub collect_child : Fields → Collected
    collect_child end = some []
    collect_child (field k v rest) = if k == "child" then collect v else collect_child rest
