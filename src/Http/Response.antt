-- ===== src/Http/Response.antt =====
-- pkg/proxy/http/proxy.go: the cap on a response, and the errors of `client.Do`.
use forager.Prelude.{
  ℕ, zero, suc, ◌+◌, ◌-◌, ◌≤◌, ◌<◌, ◌≡◌, refl, ap, Bool, true, false, ◌||◌, Option, none, some, [],
  ◌∷◌, ltb, leb, ◌==◌, string_eq, String, if◌then◌else◌, length, arith, Result, ok, err,
}
use forager.Prelude.Int.{ℤ, pos, negsuc, half, inc_int64}
use forager.Prelude.Bytes.{Bytes}
use native.Mathlib.Decide.{dec_le}
use forager.Ssh.Requests.{read_up_to, limited}
use forager.Http.{HttpError, response_too_large, ConfigValue, int, float, max_response_bytes}

-- One byte more than the cap, unless that would wrap int64.
abbrev pub read_limit : ℕ → ℤ
read_limit cap = if ltb cap (half - 1) then inc_int64 (pos cap) else pos cap

unfoldable pub read_response : ℕ → Bytes → Result HttpError Bytes
unfolding read_up_to
read_response cap body =
    let read = limited (read_limit cap) body in
    if ltb cap (length read) then err response_too_large else ok read

-- What `isNetworkError` finds in the error of `client.Do`, or in the one that its url.Error wraps.
pub record DoError : Type 0 where
  pub is_canceled : Bool
  pub is_dns : Bool
  pub op : Option String
  pub is_record_header : Bool
  pub is_certificate : Bool

unfoldable pub is_network_error : DoError → Bool
is_network_error e =
    if e.is_canceled
    then false
    else e.is_dns
      || elim e.op [ some op ↦ op == "dial" | none ↦ false ]
      || e.is_record_header
      || e.is_certificate

read_up_to_whole : (n : ℕ) (s : Bytes) → length s ≤ n → read_up_to n s ≡ s
unfolding read_up_to
read_up_to_whole zero [] h = refl
read_up_to_whole zero (c ∷ s) h = absurd (omega arith)
read_up_to_whole (suc n) [] h = refl
read_up_to_whole (suc n) (c ∷ s) h = ap (λ (t : Bytes). c ∷ t) (read_up_to_whole n s (omega arith))

length-read_up_to : (n : ℕ) (s : Bytes) → n ≤ length s → length (read_up_to n s) ≡ n
unfolding read_up_to
length-read_up_to zero s h = refl
length-read_up_to (suc n) [] h = absurd (omega arith)
length-read_up_to (suc n) (c ∷ s) h = omega (arith, length-read_up_to n s (omega arith))

-- The ints and floats of a configuration: an int64, and below 2^63 where the code converts a float.
abbrev pub IsInt64 : Option ConfigValue → Type 0
IsInt64 (some (int (pos n))) = n < half
IsInt64 (some (float false true n)) = (1 ≤ n) × (n < half)
IsInt64 _ = Unit {0}

pub cap_bounds :
    (v : Option ConfigValue)
    → IsInt64 v
    → (1 ≤ max_response_bytes v) × (max_response_bytes v < half)
unfolding max_response_bytes
cap_bounds none h = omega arith
cap_bounds (some (int (pos n))) h = ground arith
cap_bounds (some (int (negsuc n))) h = omega arith
cap_bounds (some (float true b n)) h = omega arith
cap_bounds (some (float false true n)) h = h
cap_bounds (some (float false false n)) h = omega arith
cap_bounds (some _) h = omega arith

pub read_response_at :
    (cap : ℕ) (body : Bytes)
    → cap < half
    → length body < half
    → read_response cap body ≡ (if leb (length body) cap then ok body else err response_too_large)
unfolding read_response
read_response_at cap body most small = elim (dec_le (length body) cap) [
  | yes within ↦
      ground
        (arith, read_up_to_whole (cap + 1) body (ground arith), read_up_to_whole cap body within)
  | no over ↦ ground (arith, length-read_up_to (cap + 1) body (ground arith))
]

-- Whatever cap a configuration gives, an upstream body of less than 2^63 bytes is passed on whole if
-- it has at most that many bytes, and is refused otherwise: never cut, also at the greatest cap.
pub read_response_lem :
    (v : Option ConfigValue) (body : Bytes)
    → IsInt64 v
    → length body < half
    → (1 ≤ max_response_bytes v)
      × (read_response (max_response_bytes v) body
          ≡ (if leb (length body) (max_response_bytes v) then ok body else err response_too_large))
read_response_lem v body fits small =
    let (least, most) = cap_bounds v fits in
    (least, read_response_at (max_response_bytes v) body most small)
