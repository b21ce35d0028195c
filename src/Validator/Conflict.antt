-- ===== src/Validator/Conflict.antt =====
-- Which resources exclude each other in mc_ai_bt/validator.py.
use mc_ai_bt.Common.{String, Bool, not, ◌&&◌, ◌||◌, ◌==◌, ◌≡◌, ap, ◌∙◌, arith}
use mc_ai_bt.Common.Text.{strip}
use mc_ai_bt.Common.Dict.{==_comm}
use mc_ai_bt.Validator.Resources.{
  among, resource_conflict_family, names_conflict, resources_conflict,
}

shuffle : (x y e p q : Bool) → not x && not y && (e || p || q) ≡ not y && not x && (e || q || p)
shuffle x y e p q = ground arith

names_conflict_comm : (a b : String) → names_conflict a b ≡ names_conflict b a
unfolding names_conflict
names_conflict_comm a b =
    shuffle (a == "") (b == "") (a == b) (among b (resource_conflict_family a))
      (among a (resource_conflict_family b))
    ∙ ap
        (λ e.
          not (b == "")
          && not (a == "")
          && (e || among a (resource_conflict_family b) || among b (resource_conflict_family a)))
        (==_comm a b)

-- A conflict goes both ways.
pub resources_conflict_comm :
    (left right : String) → resources_conflict left right ≡ resources_conflict right left
unfolding resources_conflict
resources_conflict_comm left right = names_conflict_comm (strip left) (strip right)
