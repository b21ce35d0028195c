-- ===== src/Lib.antt =====
-- A verification of mc_ai_bt, the mission layer of a robot: a ROS node that takes missions from
-- an operator, has them planned as behaviour trees, runs one of them at a time and reports what
-- became of it.
-- The parts and their files:
--   Identity.antt: mc_ai_bt/identity.py, the identity of a mission with its plan version and
--     execution id.
--   Mission.antt, Mission/Outcome.antt: the data of mc_ai_bt/mission.py and the outcome
--     envelope of a finished mission.
--   Manager.antt: class MissionManager of mc_ai_bt/mission.py, in Manager/Monad.antt (state and
--     exceptions), Manager/Slot.antt (its private methods), Manager/Submit.antt,
--     Manager/Plan.antt, Manager/Pausing.antt, Manager/Priority.antt and Manager/Finish.antt.
--     Its state is the record Manager (`_missions`, `_active_id`, `_resumed_from_reason`); each
--     method is an action on it that returns or raises, and what it wrote before a raise stays
--     written. Manager/Request.antt has the calls as data and the states that calls reach. The
--     other files under Manager are proofs: Keyed, Evolve, Continues and History on what a call
--     may do to a mission, Slots, Handover, Sharing, Polite, Exclusion and Fairness on the
--     single slot, Runs, Results and OutOfTurn on single calls, Order on the queue, Bounds on
--     priorities and progress.
--   Validator.antt: mc_ai_bt/validator.py. Validator/Checks.antt has the fields of a node,
--     Validator/Resources.antt the resources of a branch, Validator/Parallel.antt the conflicts
--     of branches; a report is the list of the errors in order, or nothing where the code
--     raises a TypeError. The skill registry is the record Skills. Accepted, Guarantees and
--     Conflict are proofs.
--   Trigger.antt: mc_ai_bt/trigger_manager.py.
--   Journal.antt: the reading side of mc_ai_bt/mission_journal.py; the missions that it loads
--     are those that Manager.init starts from.
--   Executor.antt: what the nodes of mc_ai_bt/executor.py make of answers; Executor/Leaf.antt
--     has the interface to skills, checks and resolver and the refusals of malformed nodes,
--     Executor/Run.antt the execution of a tree as a relation, since answers and cancellation
--     may come at any time. Executor/Visual.antt has the visual check. Sound, Outcome, Seen,
--     Observed and Success are proofs on results, Accepted and Unrefused on plans that the
--     validator accepts.
--   Entity.antt, Entity/People.antt: mc_ai_bt/entity_facts.py, what a fact says of an object or
--     of people.
--   Goal.antt: class GoalChecker of mc_ai_bt/goal_check.py. Goal/Registry.antt has the
--     registry, Goal/Direct.antt and Goal/Bespoke.antt the verdicts on one piece of evidence,
--     Goal/Place.antt mc_ai_bt/place_predicates.py, Goal/World.antt and Goal/Snapshot.antt the
--     branches for the facts of an execution and for a snapshot of the world state; the other
--     children have what holds of them.
--   Region.antt, Region/Verdict.antt: mc_ai_bt/place_region_predicates.py, the regions of
--     places and the evaluator over them, which the goal checker takes as an argument
--     (Goal/World.antt, Tools.evaluate). An index lists its regions with the latest of a name
--     first.
--   Facts.antt: mc_ai_bt/world_facts.py, the facts that an execution writes to the world state,
--     which Goal/Snapshot.antt reads.
--   Visual.antt: mc_ai_bt/visual_check.py; Visual/Client.antt and Visual/Fallback.antt:
--     mc_ai_bt/visual_client.py, whose answers Executor/Visual.antt records and whose fallback
--     wraps the goal checker.
--   Lease.antt: mc_ai_bt/lease_timing.py.
--   Skill.antt: mc_ai_bt/skill_registry.py, the table of skills.
--   Policy.antt: class PolicyGuard of mc_ai_bt/policy_guard.py, which checks a plan after the
--     validator. Policy/Limits.antt has the limits and sets of skills, Policy/Numbers.antt,
--     Policy/Arguments.antt and its children the checks of arguments, Policy/Actions.antt their
--     choice by skill, Policy/Gates.antt the search of Fallback branches with the marks of
--     Goal/Registry.antt, Policy/Totals.antt the counts, Policy/Alignment.antt the check of the
--     goal. A part of the walk returns the new counts and the errors that it appends, or
--     nothing where the code raises. The other children are proofs.
--   Broker.antt, Broker/Locate.antt: mc_ai_bt/decision_broker.py, which the executor asks about
--     an UNKNOWN check. A poll is a relation of what one check can answer with its outcome,
--     since the window may elapse or the mission be canceled after any check; the replies of
--     the perception service are a function of the number of the call.
--   Projection.antt: the selection of the active mission and the counts in
--     mc_ai_bt/task_projection.py; Projection/Agree.antt compares the selection with the
--     manager's slot.
--   Common.antt, Json.antt: what Python's builtins mean here (integers, floats in units of 2 ^
--     -1074, texts, dictionaries as association lists, sorting, decoded JSON).
-- What the program draws from uuid4 is an argument of the call that draws it; a submission is
-- assumed to draw an id that is not stored yet. `json` and `repr` are fields of the record
-- Json.Runtime, so every theorem holds for each behaviour of them. A call is polite
-- (Manager/Polite.antt) when set_plan and request_replan go to the mission that holds the slot,
-- and when resume does not queue its mission behind a paused one; Manager/OutOfTurn.antt is
-- about other calls.
-- Functions are structural recursion, so there is no fuel anywhere; the number of attempts of a
-- Retry node is the index that its relation counts down.
-- Letter case, number conversion and float arithmetic of Python, as far as the fact checks use
-- them, are fields of Json.Builtins. The sums of floats that the policy guard makes are the
-- record FloatSums. The comparison of a distance with a radius and the search of a visual query
-- by regular expressions are arguments. A goal whose args are neither empty nor an object is
-- outside of the model of the goal checker.
-- Not modelled: the ROS node and its threads, the clients of other services, the prompts and
-- answers of the language model, and the diagnostic scripts.
pub mod Common
pub mod Json
pub mod Identity
pub mod Mission
pub mod Manager
pub mod Validator
pub mod Trigger
pub mod Journal
pub mod Executor
pub mod Projection
pub mod Entity
pub mod Visual
pub mod Goal
pub mod Facts
pub mod Lease
pub mod Skill
pub mod Policy
pub mod Region
pub mod Broker
