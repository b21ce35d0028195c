-- ===== src/Goal/ReadBack.antt =====
-- mc_ai_bt/world_facts.py and mc_ai_bt/goal_check.py: the verdict of the world state on facts that an
-- execution has written.
use mc_ai_bt.Goal.Written.{
  Written, place, near, motion, animation, name_of, Writable, Stored, All-left, All-right,
  compare_names-yes, compare_names-same, text_or_empty-str, if_dict-object, Stored-value,
  says_true-some, text-Stored, compare_value-same, motion-Stored,
}
use mc_ai_bt.Common.{true, some, ◌++◌, ◌≡◌, refl, ap, ◌≢◌, Bool-cases, inl, inr, All, arith}
use mc_ai_bt.Common.Text.{strip, ◌<>◌}
use mc_ai_bt.Json.{bool, dict, Fields, end, get}
use mc_ai_bt.Json.Builtins.{dict_or_empty}
use mc_ai_bt.Executor.{yes}
use mc_ai_bt.Facts.{
  fact_update, text_update, dict_update, true_update, world_fact_updates_for_execution,
  place_update, near_update, motion_update, animation_update, later_updates,
}
use mc_ai_bt.Goal.Direct.{CheckResult, result, says_true}
use mc_ai_bt.Goal.Bespoke.{text_at}
use mc_ai_bt.Goal.World.{Tools, branch_of, execution_branch, check_execution_facts}
use mc_ai_bt.Goal.Snapshot.{check_snapshot, snapshot_branch}

module _ (t : Tools) (args facts world : Fields) where
  abbrev Confirmed : Written → Type 0
  Confirmed w =
      (r : CheckResult) × (snapshot_branch t (branch_of (name_of w)) (name_of w) args world
        ≡ some r)
      × (r.state ≡ yes)

  abbrev Executed : Written → Type 0
  Executed w = (execution_branch t (branch_of (name_of w)) (name_of w) args facts).state ≡ yes

  near-Confirmed :
      All (Stored world) (
        true_update "mc_ai_bt.skill.come_to_me" "robot" "near_interaction_owner"
          (get "robot_near_interaction_owner" facts))
      → Executed near
      → Confirmed near
  unfolding true_update branch_of execution_branch snapshot_branch
  near-Confirmed stored e =
      let fact = get "robot_near_interaction_owner" facts in
      elim (Bool-cases (says_true fact)) [
        | inl says ↦
            let update =
              fact_update "mc_ai_bt.skill.come_to_me" "robot" "near_interaction_owner"
                (bool true) in
            let here = Stored-value world update (rw (says_true-some fact says) at stored).0 in
            (result yes "world state confirms robot_near_interaction_owner", rw here refl, refl)
        | inr other ↦ let bad = rw other at e in absurd (ground arith)
      ]

  animation-Confirmed :
      All (Stored world) (
        text_update t.py.rt "mc_ai_bt.skill.animation" "robot" "last_animation"
          (get "animation_played" facts))
      → strip (text_at t.py "animation_played" facts) ≡ text_at t.py "animation_played" facts
      → Executed animation
      → Confirmed animation
  unfolding branch_of execution_branch snapshot_branch
  animation-Confirmed stored plain e =
      let (full, same) = compare_names-yes _ _ _ _ _ e in
      let here = text-Stored t _ _ _ world _ stored full plain in
      (
        result yes
            ("world state confirms animation_played: " <> text_at t.py "animation_played" facts),
        rw (here, text_or_empty-str t.py.rt (text_at t.py "animation_played" facts) full)
            (ap some (compare_names-same _ _ _ _ _ full same)),
        refl,
      )

  place-Confirmed :
      All (Stored world) (
        text_update t.py.rt "mc_ai_bt.skill.go_to_place" "navigation" "current_place"
          (get "robot_at_place" facts))
      → strip (text_at t.py "robot_at_place" facts) ≡ text_at t.py "robot_at_place" facts
      → Executed place
      → Confirmed place
  unfolding branch_of execution_branch snapshot_branch dict_or_empty
  place-Confirmed stored plain e =
      let (full, same) = compare_names-yes _ _ _ _ _ e in
      let here = text-Stored t _ _ _ world _ stored full plain in
      let scope = if_dict-object "current_place" (get "navigation" world) here in
      (
        result yes ("world state says robot_at_place: " <> text_at t.py "robot_at_place" facts),
        rw (scope, here) (ap some (compare_value-same t.py _ _ _ full same)),
        refl,
      )

  motion-Confirmed :
      All (Stored world) (
        dict_update "mc_ai_bt.skill.simple_move" "robot" "last_relative_motion"
          (get "relative_motion_completed" facts))
      → get "relative_motion_completed" facts ≢ some (dict end)
      → Executed motion
      → Confirmed motion
  unfolding branch_of execution_branch snapshot_branch
  motion-Confirmed stored full e = (_, refl, motion-Stored t.py args world _ stored full e)

  by_case :
      (w : Written)
      → All (Stored world) (place_update t.py.rt facts)
      → All (Stored world) (near_update facts)
      → All (Stored world) (motion_update facts)
      → All (Stored world) (animation_update t.py.rt facts)
      → Writable t facts w
      → Executed w
      → Confirmed w
  by_case place a b c d plain e = place-Confirmed a plain e
  by_case near a b c d plain e = near-Confirmed b e
  by_case motion a b c d plain e = motion-Confirmed c plain e
  by_case animation a b c d plain e = animation-Confirmed d plain e

  written-Confirmed :
      (w : Written)
      → All (Stored world) (world_fact_updates_for_execution t.py.rt facts)
      → Writable t facts w
      → Executed w
      → Confirmed w
  unfolding world_fact_updates_for_execution
  written-Confirmed w stored plain e =
      let rt = t.py.rt in
      let last = animation_update rt facts ++ later_updates rt facts in
      let rest = near_update facts ++ (motion_update facts ++ last) in
      let P = Stored world in
      let after_place = All-right P (place_update rt facts) rest stored in
      let after_near = All-right P (near_update facts) (motion_update facts ++ last) after_place in
      let after_motion = All-right P (motion_update facts) last after_near in
      by_case w (All-left P (place_update rt facts) rest stored)
        (All-left P (near_update facts) (motion_update facts ++ last) after_place)
        (All-left P (motion_update facts) last after_near)
        (All-left P (animation_update rt facts) (later_updates rt facts) after_motion) plain e

-- If the world state holds every update of an execution, then what the facts of the execution confirm of
-- a place, of the nearness of the owner, of a relative motion or of an animation, the world state alone
-- confirms too, for the same arguments. The text of a place or an animation must have no space around it,
-- and the motion must not be the empty object.
pub written_facts_are_read_back :
    (t : Tools) (w : Written) (args facts top world : Fields)
    → dict_or_empty (get "facts" top) ≡ some world
    → All (Stored world) (world_fact_updates_for_execution t.py.rt facts)
    → Writable t facts w
    → (check_execution_facts t (name_of w) args facts).state ≡ yes
    → (r : CheckResult) × (check_snapshot t (name_of w) args top ≡ some r) × (r.state ≡ yes)
unfolding check_snapshot check_execution_facts
written_facts_are_read_back t w args facts top world is_world stored plain e =
    rw is_world (written-Confirmed t args facts world w stored plain e)
