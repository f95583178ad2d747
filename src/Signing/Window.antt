-- ===== src/Signing/Window.antt =====
-- pkg/signing/verify.go: the window around `signed_at`. Instants are nanoseconds since year 0.
use forager.Prelude.{ℕ, ◌+◌, ◌≤◌, ◌<◌, ◌≡◌, ◌⊎◌, ◌↔◌, inl, inr, Bool, false, arith, if◌then◌else◌}
use native.Mathlib.Decide.{dec_le}
use forager.Prelude.Int.{ℤ, pos, half, lt_ℤ, neg_int64, time_sub}

-- 5 * time.Minute
abbrev pub max_timestamp_skew : ℕ
max_timestamp_skew = 300_000_000_000

unfoldable pub abs_duration : ℤ → ℤ
abs_duration d = if lt_ℤ d (pos 0) then neg_int64 d else d

-- The test that refuses a message: `absDuration(time.Since(signedAt)) > maxTimestampSkew`.
unfoldable pub is_outside_window : ℕ → ℕ → Bool
unfolding abs_duration
is_outside_window now signed_at =
    lt_ℤ (pos max_timestamp_skew) (abs_duration (time_sub now signed_at))

-- A stamp that passes: at most five minutes before or after the clock, or 2^63 nanoseconds or more
-- after it.
abbrev pub IsNear : ℕ → ℕ → Type 0
IsNear now signed_at =
    ((now ≤ signed_at + max_timestamp_skew) × (signed_at ≤ now + max_timestamp_skew))
    ⊎ (now + half ≤ signed_at)

is_outside_window-IsNear :
    (now signed_at : ℕ) → is_outside_window now signed_at ≡ false → IsNear now signed_at
unfolding is_outside_window
is_outside_window-IsNear now signed_at p = elim (dec_le (now + half) signed_at) [
  | yes far ↦ inr far
  | no near ↦ inl (ground arith, ground arith)
]

IsNear-is_outside_window :
    (now signed_at : ℕ) → IsNear now signed_at → is_outside_window now signed_at ≡ false
unfolding is_outside_window
IsNear-is_outside_window now signed_at (inl near) = ground arith
IsNear-is_outside_window now signed_at (inr far) = ground arith

pub is_outside_window-eq-false_iff :
    (now signed_at : ℕ) → (is_outside_window now signed_at ≡ false) ↔ IsNear now signed_at
is_outside_window-eq-false_iff now signed_at =
    (is_outside_window-IsNear now signed_at, IsNear-is_outside_window now signed_at)

-- Within 2^63 nanoseconds (292 years) of the clock, a message passes exactly when its stamp is at
-- most five minutes away, before or after.
pub window_near :
    (now signed_at : ℕ)
    → signed_at < now + half
    → is_outside_window now signed_at ≡ false
    → (now ≤ signed_at + max_timestamp_skew) × (signed_at ≤ now + max_timestamp_skew)
unfolding is_outside_window
window_near now signed_at h p = ground arith

-- A stamp 2^63 nanoseconds or more after the clock passes: the difference saturates at the least
-- int64, which is its own negation and so below the allowed skew.
pub window_far_future :
    (now signed_at : ℕ) → now + half ≤ signed_at → is_outside_window now signed_at ≡ false
unfolding is_outside_window
window_far_future now signed_at h = ground arith
