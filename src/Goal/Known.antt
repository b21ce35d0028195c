-- ===== src/Goal/Known.antt =====
-- mc_ai_bt/goal_check.py and mc_ai_bt/validator.py: the predicates that the checker judges and the names
-- that the validator accepts.
