-- ===== src/Client/Backoff.antt =====
-- pkg/ws/client.go: the waits before reconnects.
use Prim.Native.Nat.{min}
use native.Mathlib.Nat.{two-pow-succ, one-le-pow}
use forager.Prelude.{
  ℕ, zero, suc, ◌+◌, ◌*◌, ◌^◌, ◌≤◌, ◌<◌, ◌≡◌, refl, ap, ◌∙◌, not, inl, inr, Bool-cases, nat_eq,
  List, [], ◌∷◌, arith, leb, if◌then◌else◌, All,
}
use forager.Prelude.Int.{ℤ, pos, half, max_int64, lt_ℤ, eq_ℤ, inc_int64}
use forager.Client.{
  max_reconnect_delay, initial_delay, double_ceiling, reconnect_wait, Session, held, run_round,
  run_waits,
}

ceiling-le-doubled : (c k : ℕ) → c ≤ c * 2 ^ k
ceiling-le-doubled c k = grind (arith, one-le-pow k 2 (omega arith))

doubled : (c k : ℕ) → c * 2 ^ suc k ≡ c * 2 ^ k + c * 2 ^ k
doubled c k = rw two-pow-succ (omega arith)

-- What the loop computes: the base doubled `attempts` times, capped at the limit.
double_ceiling-eq-min :
    (attempts limit ceiling : ℕ)
    → limit < half
    → ceiling ≤ limit
    → double_ceiling attempts limit (pos ceiling) ≡ pos (min limit (ceiling * 2 ^ attempts))
unfolding double_ceiling
double_ceiling-eq-min zero limit ceiling fits le = ap pos (omega arith)
double_ceiling-eq-min (suc k) limit ceiling fits le = ground (
  arith,
  double_ceiling-eq-min k limit (ceiling * 2),
  doubled ceiling k,
  ceiling-le-doubled ceiling k,
)

ceiling_lem :
    (base limit attempt : ℕ)
    → limit < half
    → double_ceiling attempt limit (pos (min base limit)) ≡ pos (min limit (base * 2 ^ attempt))
ceiling_lem base limit attempt fits = elim (Bool-cases (leb base limit)) [
  | inl le ↦
      let e : min base limit ≡ base = ground arith in
      rw e (double_ceiling-eq-min attempt limit base fits (ground arith))
  | inr gt ↦
      let e : min base limit ≡ limit = ground arith in
      let more : limit < base = ground arith in
      let f : min limit (limit * 2 ^ attempt) ≡ min limit (base * 2 ^ attempt) =
        omega (arith, ceiling-le-doubled base attempt, ceiling-le-doubled limit attempt) in
      rw e (double_ceiling-eq-min attempt limit limit fits (omega arith) ∙ ap pos f)
]

abbrev draw : ℤ → (ℤ → ℕ) → ℕ
draw ceiling rand_n =
    if not (lt_ℤ (pos 0) ceiling)
    then 0
    else if eq_ℤ ceiling max_int64
    then rand_n max_int64
    else rand_n (inc_int64 ceiling)

draw_lem :
    (c : ℕ) (rand_n : ℤ → ℕ)
    → (c ≡ 0 → draw (pos c) rand_n ≡ 0)
      × (0 < c → c + 1 < half → draw (pos c) rand_n ≡ rand_n (pos (c + 1)))
      × (c + 1 ≡ half → draw (pos c) rand_n ≡ rand_n (pos c))
draw_lem c rand_n = (λ h. ground arith, λ p q. ground arith, λ h. ground arith)

pub reconnect_wait_lem :
    (base limit attempt : ℕ) (rand_n : ℤ → ℕ) (c : ℕ)
    → limit < half
    → c ≡ min limit (base * 2 ^ attempt)
    → (c ≡ 0 → reconnect_wait base limit attempt rand_n ≡ 0)
      × (0 < c → c + 1 < half → reconnect_wait base limit attempt rand_n ≡ rand_n (pos (c + 1)))
      × (c + 1 ≡ half → reconnect_wait base limit attempt rand_n ≡ rand_n (pos c))
unfolding reconnect_wait
reconnect_wait_lem base limit attempt rand_n c fits e =
    rw (ceiling_lem base limit attempt fits, ← e) (draw_lem c rand_n)

round_bounded :
    (s : Session) (attempt : ℕ) (rand_n : ℤ → ℕ)
    → ((n : ℕ) → 0 < n → rand_n (pos n) < n)
    → (run_round rand_n s attempt).0 ≤ max_reconnect_delay
unfolding run_round
round_bounded s attempt rand_n h =
    let counted = if held s then 0 else attempt in
    let c = min max_reconnect_delay (initial_delay * 2 ^ counted) in
    let waits =
      reconnect_wait_lem initial_delay max_reconnect_delay counted rand_n c (omega arith) refl in
    let positive : 0 < c = omega (arith, ceiling-le-doubled initial_delay counted) in
    rw (waits.1 positive (omega arith)) (omega (arith, h (c + 1) (omega arith)))

-- However the sessions end, no wait between two of them is longer than ten seconds, as long as each
-- draw below `n` is below `n`.
run_waits_bounded :
    (sessions : List (Session × (ℤ → ℕ))) (attempt : ℕ)
    → All (λ (s : Session × (ℤ → ℕ)). (n : ℕ) → 0 < n → s.1 (pos n) < n) sessions
    → All (λ w. w ≤ max_reconnect_delay) (run_waits sessions attempt)
unfolding run_waits
run_waits_bounded [] attempt h = tt
run_waits_bounded ((s, rand_n) ∷ rest) attempt (h, hs) =
    (round_bounded s attempt rand_n h, run_waits_bounded rest (run_round rand_n s attempt).1 hs)
