-- ===== src/Lease/Tests.antt =====
-- The renewal of leases on concrete times.
use mc_ai_bt.Common.{true, ◌≡◌, refl}
use mc_ai_bt.Common.Float.{nan, of_ℕ, unit, leb_float}
use mc_ai_bt.Lease.{lease_renew_interval, lease_renew_interval_bounds}

half_a_minute : lease_renew_interval (of_ℕ 50) ≡ of_ℕ 25
unfolding lease_renew_interval unit
half_a_minute = refl

lease_renew_interval_bounds_example :
    (leb_float (of_ℕ 1) (lease_renew_interval nan) ≡ true)
    × (leb_float (lease_renew_interval nan) (of_ℕ 30) ≡ true)
lease_renew_interval_bounds_example = lease_renew_interval_bounds nan
