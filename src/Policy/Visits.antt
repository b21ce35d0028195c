-- ===== src/Policy/Visits.antt =====
-- Parts of the walk of mc_ai_bt/policy_guard.py that do not raise.
use mc_ai_bt.Common.{String, none, some, List, [], ◌++◌, ◌≡◌, refl, ap}
use mc_ai_bt.Common.Sort.{some_eq}
use mc_ai_bt.Validator.Checks.{Report, fine}
use mc_ai_bt.Policy.Totals.{Stats}
use mc_ai_bt.Policy.{Visit, visited, after, and_then}

-- The counts and the errors of a walk that does not raise.
pub visit_eq :
    {s t : Stats} {a b : List String} → visited s (some a) ≡ visited t (some b) → (s ≡ t) × (a ≡ b)
visit_eq e = let same = some_eq e in (ap (λ p. p.0) same, ap (λ p. p.1) same)

after-some :
    (a : List String) (v : Visit) (t : Stats) (errors : List String)
    → after a v ≡ some (t, errors)
    → (b : List String) × (v ≡ some (t, b)) × (a ++ b ≡ errors)
after-some a none t errors e = absurd (cc)
after-some a (some (u, b)) t errors e =
    let (same, joined) = visit_eq e in (b, ap (λ w. some (w, b)) same, joined)

-- The two parts of a walk that does not raise.
pub and_then-some :
    (v : Visit) (f : Stats → Visit) (t : Stats) (errors : List String)
    → and_then v f ≡ some (t, errors)
    → (s : Stats) × (a : List String) × (b : List String) × (v ≡ some (s, a))
      × (f s ≡ some (t, b))
      × (a ++ b ≡ errors)
unfolding and_then
and_then-some none f t errors e = absurd (cc)
and_then-some (some (s, a)) f t errors e =
    let (b, at_t, joined) = after-some a (f s) t errors e in (s, a, b, refl, at_t, joined)

pub visited-same :
    (s t : Stats) (r : Report) (errors : List String) → visited s r ≡ some (t, errors) → s ≡ t
visited-same s t none errors e = absurd (cc)
visited-same s t (some a) errors e = (visit_eq e).0

pub visited-fine : (s t : Stats) (r : Report) → visited s r ≡ some (t, []) → (s ≡ t) × (r ≡ fine)
visited-fine s t none e = absurd (cc)
visited-fine s t (some errors) e = let (same, none_left) = visit_eq e in (same, ap some none_left)
