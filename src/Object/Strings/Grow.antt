-- ===== src/Object/Strings/Grow.antt =====
-- The capacities of src/backend/object.c: the loop that doubles has enough fuel.
use cc.Base.{ℕ, zero, suc, ◌*◌, ◌^◌, ◌≤◌, ◌<◌, ◌≡◌, arith, ap}
use cc.Base.{◌==◌, if◌then◌else◌, size_max}
use native.Mathlib.Nat.{pow-suc}
use cc.Object.Strings.{double_until, grown_capacity}

double_power : (next fuel : ℕ) → next * 2 * 2 ^ fuel ≡ next * 2 ^ suc fuel
double_power next fuel = omega (arith, ap (λ (t : ℕ). next * t) (pow-suc 2 fuel))

double_until-ge :
    (fuel next needed : ℕ)
    → needed ≤ size_max
    → size_max < next * 2 ^ fuel
    → needed ≤ double_until fuel next needed
unfolding double_until
double_until-ge zero next needed h k = omega arith
double_until-ge (suc fuel) next needed h k =
    ground (arith, double_until-ge fuel (next * 2) needed h (omega (arith, double_power next fuel)))

-- The capacity that a growth gives holds what is needed.
pub grown_capacity-ge :
    (capacity needed : ℕ) → needed ≤ size_max → needed ≤ grown_capacity capacity needed
unfolding grown_capacity
grown_capacity-ge capacity needed h =
    ground
      (arith, double_until-ge 64 (if capacity == 0 then 64 else capacity) needed h (ground arith))
