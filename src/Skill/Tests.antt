-- ===== src/Skill/Tests.antt =====
-- The table of skills on concrete names.
use mc_ai_bt.Common.{some, true, false, [], ◌∷◌, ◌≡◌, refl}
use mc_ai_bt.Skill.{
  find_skill, has_skill, default_skills, internally_resolved_predicates, predicates_of_names,
}

found : has_skill default_skills "come_to_me" ≡ true
unfolding has_skill find_skill
found = refl

unknown_name : has_skill default_skills "fly" ≡ false
unfolding has_skill find_skill
unknown_name = refl

resolved :
    internally_resolved_predicates "remember_entity"
    ≡ some ("search_for_entity_completed" ∷ "entity_located" ∷ [])
unfolding internally_resolved_predicates find_skill predicates_of_names
resolved = refl
