-- ===== src/Client.antt =====
-- pkg/ws/client.go: the reconnect loop, the send queue and the health triggers. Durations are
-- nanoseconds; those of the source are not negative.
pub mod Backoff
use Prim.Native.Nat.{min}
use forager.Prelude.{
  ℕ, zero, suc, ◌+◌, ◌/◌, Bool, true, false, not, String, Option, none, some, List, [], ◌∷◌, ◌++◌,
  ltb, leb, if◌then◌else◌, length,
}
use forager.Prelude.Int.{ℤ, pos, max_int64, lt_ℤ, eq_ℤ, inc_int64, double_int64}

abbrev pub max_reconnect_delay : ℕ
max_reconnect_delay = 10_000_000_000

abbrev pub initial_delay : ℕ
initial_delay = 3_000_000_000

-- The loop over the attempts, in int64: doubling stops at the limit, before it can pass it or
-- overflow.
unfoldable pub double_ceiling : ℕ → ℕ → ℤ → ℤ
double_ceiling zero limit ceiling = ceiling
double_ceiling (suc attempts) limit ceiling =
    let rest = double_ceiling attempts limit (double_int64 ceiling) in
    if lt_ℤ ceiling (pos limit)
    then (if lt_ℤ (pos (limit / 2)) ceiling then pos limit else rest)
    else ceiling

-- `rand_n n` stands for math/rand's `Int64N`.
unfoldable pub reconnect_wait : ℕ → ℕ → ℕ → (ℤ → ℕ) → ℕ
unfolding double_ceiling
reconnect_wait base limit attempt rand_n =
    let ceiling = double_ceiling attempt limit (pos (min base limit)) in
    if not (lt_ℤ (pos 0) ceiling)
    then 0
    else if eq_ℤ ceiling max_int64
    then rand_n max_int64
    else rand_n (inc_int64 ceiling)

-- How one session of `Run` ended: when it was established, if it was, and when it was over.
pub record Session : Type 0 where
  pub connected_at : Option ℕ
  pub ended_at : ℕ

abbrev pub held : Session → Bool
held s = elim s.connected_at [ none ↦ false | some t ↦ leb (t + max_reconnect_delay) s.ended_at ]

-- One round of `Run` behind `connectAndServe`: the wait, and the attempts for the next round.
unfoldable pub run_round : (ℤ → ℕ) → Session → ℕ → ℕ × ℕ
run_round rand_n s attempt =
    let counted = if held s then 0 else attempt in
    (reconnect_wait initial_delay max_reconnect_delay counted rand_n, counted + 1)

-- The waits of a run of sessions, each with its own draw.
unfoldable pub run_waits : List (Session × (ℤ → ℕ)) → ℕ → List ℕ
run_waits [] attempt = []
run_waits ((s, rand_n) ∷ rest) attempt =
    let (wait, next) = run_round rand_n s attempt in wait ∷ run_waits rest next

-- `make(chan []byte, 64)`
abbrev pub send_capacity : ℕ
send_capacity = 64

-- A full queue drops the message.
unfoldable pub send : String → List String → List String
send msg queue = if ltb (length queue) send_capacity then queue ++ (msg ∷ []) else queue

-- The trigger channel has one place: true while a trigger is pending.
unfoldable pub trigger_health_report : Bool → Bool
trigger_health_report pending = true
