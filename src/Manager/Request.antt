-- ===== src/Manager/Request.antt =====
-- The calls that the node makes of a mission manager, one constructor for each method that changes
-- it, and the managers that such calls can reach.
use mc_ai_bt.Common.{String, Bool, Option, none, ◌≡◌, ⊤}
use mc_ai_bt.Common.Int.{ℤ}
use mc_ai_bt.Common.Float.{Float}
use mc_ai_bt.Common.Dict.{lookup}
use mc_ai_bt.Json.{Fields, Runtime}
use mc_ai_bt.Identity.{Identity}
use mc_ai_bt.Mission.{State}
use mc_ai_bt.Manager
use mc_ai_bt.Manager.{Manager, Submission, Action, pure, ◌>>=◌, ◌>>◌}

-- A text named `fresh` is the `uuid4` that the call draws.
pub data Request : Type 0 where
  submit : Submission → Request
  set_plan : String → String → String → Option Identity → String → Request
  request_replan : String → String → String → Request
  pause : String → String → Request
  resume : String → String → String → Request
  reprioritize : String → ℤ → Bool → String → Request
  cancel : String → String → Request
  mark_terminal : String → State → String → Option Identity → Option Fields → Request
  update_status : String → String → String → Option Float → Option Identity → Request

-- The call, its return value dropped.
unfoldable pub handle : Runtime → Request → Action ⊤
handle rt (submit r) = Manager.submit r >> pure tt
handle rt (set_plan id bt goal expected fresh) =
    Manager.set_plan id bt goal expected fresh >> pure tt
handle rt (request_replan id reason payload) = Manager.request_replan id reason payload >> pure tt
handle rt (pause id reason) = Manager.pause rt id reason >> pure tt
handle rt (resume id reason fresh) = Manager.resume id reason fresh >> pure tt
handle rt (reprioritize id priority preempt reason) =
    Manager.reprioritize id priority preempt reason >> pure tt
handle rt (cancel id reason) = Manager.cancel rt id reason >> pure tt
handle rt (mark_terminal id state message expected facts) =
    Manager.mark_terminal rt id state message expected facts >> pure tt
handle rt (update_status id node text progress expected) =
    Manager.update_status id node text progress expected >> pure tt

-- The id that a submission draws is not the id of a stored mission.
abbrev pub IsFresh : Request → Manager → Type 0
IsFresh (submit r) s = lookup r.fresh s.missions ≡ none
IsFresh r s = ⊤

-- One call, whether it returns or raises.
pub data Step (rt : Runtime) : Manager → Manager → Type 0 where
  call : (s t : Manager) (r : Request) → IsFresh r s → t ≡ (handle rt r s).1 → Step rt s t

pub data Reach (rt : Runtime) (s : Manager) : Manager → Type 0 where
  here : Reach rt s s
  next : {t u : Manager} → Reach rt s t → Step rt t u → Reach rt s u
