-- ===== src/Lease.antt =====
-- mc_ai_bt/lease_timing.py: how often the lease of a resource is renewed.
mod Tests
use mc_ai_bt.Common.{ℕ, ◌*◌, ◌+◌, ◌-◌, ◌≤◌, Bool, true, false, ◌≡◌, if◌then◌else◌, arith, ltb, leb}
use mc_ai_bt.Common.Int.{ℤ, pos, negsuc}
use mc_ai_bt.Common.Float.{
  Float, nan, neg_inf, pos_inf, finite, unit, unit-pos, of_ℕ, ltb_float, leb_float,
}
use Prim.Native.Nat.{◌/◌}

-- `x * 0.5`, for an `x` of at least 1.0: the half of such a float is a float.
unfoldable pub half : Float → Float
half (finite (pos n)) = finite (pos (n / 2))
half x = x

-- `max(1.0, x)`
unfoldable pub at_least_one : Float → Float
at_least_one x = if ltb_float (of_ℕ 1) x then x else of_ℕ 1

-- `min(x, 30.0)`
unfoldable pub at_most_thirty : Float → Float
at_most_thirty x = if ltb_float (of_ℕ 30) x then of_ℕ 30 else x

unfoldable pub lease_renew_interval : Float → Float
unfolding half at_least_one at_most_thirty
lease_renew_interval ttl = at_least_one (at_most_thirty (half (at_least_one ttl)))

-- Whatever the time to live is, also if it is no number, a lease is renewed at intervals of 1 to 30
-- seconds.
pub lease_renew_interval_bounds :
    (ttl : Float)
    → (leb_float (of_ℕ 1) (lease_renew_interval ttl) ≡ true)
      × (leb_float (lease_renew_interval ttl) (of_ℕ 30) ≡ true)
unfolding lease_renew_interval
lease_renew_interval_bounds nan = ground (arith, unit-pos)
lease_renew_interval_bounds neg_inf = ground (arith, unit-pos)
lease_renew_interval_bounds pos_inf = ground (arith, unit-pos)
lease_renew_interval_bounds (finite x) = ground (arith, unit-pos)

-- The units of a time that is not negative.
abbrev units : Float → ℕ
units (finite (pos n)) = n
units x = 0

-- A lease that lives two seconds or more is renewed at the latest when half of its life is over.
pub renewed_by_half : (n : ℕ) → 2 * unit ≤ n → 2 * units (lease_renew_interval (finite (pos n))) ≤ n
unfolding lease_renew_interval
renewed_by_half n long = ground (arith, unit-pos)
