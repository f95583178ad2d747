-- ===== src/Tests/ClientTests.antt =====
-- pkg/ws/client.go: waits below the limit, at it, and at the greatest int64.
use forager.Prelude.{ℕ, ◌-◌, ◌≡◌, refl}
use forager.Prelude.Int.{ℤ, pos, negsuc}
use forager.Client.{reconnect_wait, double_ceiling}

-- The greatest value that a draw can have.
abbrev highest : ℤ → ℕ
highest (pos n) = n - 1
highest (negsuc n) = 0

doubled_once : reconnect_wait 3_000_000_000 10_000_000_000 1 highest ≡ 6_000_000_000
unfolding reconnect_wait double_ceiling
doubled_once = refl

capped : reconnect_wait 3_000_000_000 10_000_000_000 2 highest ≡ 10_000_000_000
unfolding reconnect_wait double_ceiling
capped = refl

saturated :
    reconnect_wait 3_600_000_000_000 9_223_372_036_854_775_807 30 highest
    ≡ 9_223_372_036_854_775_806
unfolding reconnect_wait double_ceiling
saturated = refl
