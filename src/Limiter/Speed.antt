-- ===== src/Limiter/Speed.antt =====
-- The arithmetic of speed limits: limiter/dynamic.go and the rate in `CheckLimit`.
use kknode.Base.{ℕ, ◌*◌, ◌^◌, ◌<◌, ◌≡◌, ◌≢◌, ◌⊎◌, arith}
use kknode.Base.Int.{ℤ, pos, negsuc, ◌≤ℤ◌, wrap64, ◌*ℤ◌, quot}
use kknode.Limiter.{determine_speed_limit}
use kknode.Limiter.Access.{byte_rate}

-- For rates that are not negative, the result is the other rate where one is 0, and otherwise one
-- of the two, and at most each of them.
pub determine_speed_limit_min :
    (a b : ℤ)
    → pos 0 ≤ℤ a
    → pos 0 ≤ℤ b
    → (a ≡ pos 0 → determine_speed_limit a b ≡ b)
      × (b ≡ pos 0 → determine_speed_limit a b ≡ a)
      × (a ≢ pos 0
          → b ≢ pos 0
          → (determine_speed_limit a b ≤ℤ a)
            × (determine_speed_limit a b ≤ℤ b)
            × ((determine_speed_limit a b ≡ a) ⊎ (determine_speed_limit a b ≡ b)))
unfolding determine_speed_limit
determine_speed_limit_min (pos a) (pos b) p q =
    (λ h. ground arith, λ h. ground arith, λ h k. ground arith)
determine_speed_limit_min (pos a) (negsuc b) p q = absurd (omega arith)
determine_speed_limit_min (negsuc a) b p q = absurd (omega arith)

-- A limit of n Mbit/s becomes 125000 n bytes per second, while the product fits an `int64`.
pub byte_rate_exact : (n : ℕ) → n * 1000000 < 2 ^ 63 → byte_rate (pos n) ≡ pos (n * 125000)
unfolding byte_rate ◌*ℤ◌ quot wrap64
byte_rate_exact n h = ground arith
