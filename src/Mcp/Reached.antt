-- ===== src/Mcp/Reached.antt =====
-- pkg/proxy/mcp/session.go: what holds in every state that interleaved requests reach.
use mathlib.Core.List.{Memᴰ}
use mathlib.Core.Path.{subst, sym}
use forager.Prelude.{
  if_both, not, ◌&&◌, ℕ, ◌+◌, ◌≡◌, refl, Bool, true, String, List, [], ◌∷◌, ◌++◌, some, arith, All,
  All-map,
}
use forager.Prelude.Keyed.{take_where-All, take_where-count, take_where-IsKeyed}
use forager.Mcp.{Session, take_sessions, sweep_sessions, mark_closed, HeldSessions, start_sweeps}
use forager.Mcp.Threads.{
  Phase, posting, Shared, advance, System, Step, arrives, advances, sweeps, configures, closes,
  takes_all, Reach, here, next,
}
use forager.Mcp.Owned.{in_flight, IsOwned, IsOwn, IsKept}
use forager.Mcp.Isolated.{IsKept-map, IsOwn-Extends, unchanged, advance-IsAdvanced}

abbrev pub in_flights : ℕ → List Phase → ℕ
in_flights id [] = 0
in_flights id (p ∷ ps) = in_flight id p + in_flights id ps

in_flights-middle :
    (id : ℕ) (before : List Phase) (p : Phase) (after : List Phase)
    → in_flights id (before ++ (p ∷ after)) ≡ in_flight id p + in_flights id (before ++ after)
in_flights-middle id [] p after = refl
in_flights-middle id (q ∷ before) p after = omega (arith, in_flights-middle id before p after)

All-middle {ℓ κ} :
    {A : Type ℓ} (P : A → Type κ) (before : List A) (x : A) (after : List A)
    → All P (before ++ (x ∷ after))
    → P x
All-middle P [] x after h = h.0
All-middle P (y ∷ before) x after h = All-middle P before x after h.1

All-replace {ℓ κ} :
    {A : Type ℓ} (P Q : A → Type κ) (f : (x : A) → P x → Q x) (before : List A) (x y : A)
    (after : List A)
    → Q y
    → All P (before ++ (x ∷ after))
    → All Q (before ++ (y ∷ after))
All-replace P Q f [] x y after q h = (q, All-map f after h.1)
All-replace P Q f (z ∷ before) x y after q h = (f z h.0, All-replace P Q f before x y after q h.1)

-- The account of the sessions holds with all requests' sessions in flight, and each request is in a
-- session of its own key.
pub record IsSound (s : System) : Type 0 where
  pub kept : IsKept s.shared (λ id. in_flights id s.requests)
  pub own : All (IsOwn s.shared) s.requests

take_sessions-IsKept :
    (is_taken : Session → Bool) (sh : Shared) (flight : ℕ → ℕ)
    → IsKept sh flight
    → IsKept (record sh { held = take_sessions is_taken sh.held }) flight
unfolding take_sessions
take_sessions-IsKept is_taken sh flight k =
    let number : Session → ℕ = λ (e : Session). e.id in
    let m = sh.held.sessions in
    record {
      ledger = λ id.
          omega (arith, k.ledger id, take_where-count number is_taken id m sh.held.terminated);
      keyed = take_where-IsKeyed number is_taken m sh.held.terminated k.keyed;
      owned = take_where-All number is_taken (IsOwned sh) m sh.held.terminated k.owned;
    }

Step-IsSound : {s t : System} → Step s t → IsSound s → IsSound t
unfolding sweep_sessions mark_closed start_sweeps
Step-IsSound (arrives s key) i = record {
  kept = IsKept-map s.shared _ _ (λ id. omega arith) i.kept;
  own = (tt, i.own);
}
Step-IsSound (advances sh before phase after choice) i =
    let rest : ℕ → ℕ = λ id. in_flights id (before ++ after) in
    let k =
      IsKept-map sh _ (λ id. in_flight id phase + rest id)
        (λ id. in_flights-middle id before phase after) i.kept in
    let a = advance-IsAdvanced sh rest choice phase (All-middle _ before phase after i.own) k in
    let r = advance choice phase sh in
    record {
      kept = IsKept-map r.0 _ _ (λ id. omega (arith, in_flights-middle id before r.1 after)) a.kept;
      own =
          All-replace (IsOwn sh) (IsOwn r.0) (λ p own. IsOwn-Extends p a.grown own) before phase r.1
            after a.own i.own;
    }
Step-IsSound (sweeps s now) i = record {
  kept = take_sessions-IsKept _ s.shared _ i.kept;
  own =
      All-map (λ p own. IsOwn-Extends p (unchanged s.shared (sweep_sessions now s.shared.held)) own)
        s.requests i.own;
}
Step-IsSound (configures s) i = record {
  kept =
      if_both
        (λ (h : HeldSessions).
          IsKept (record s.shared { held = h }) (λ id. in_flights id s.requests))
        (not s.shared.held.sweeping && not s.shared.held.closed) _ _
        (record { ledger = i.kept.ledger; keyed = i.kept.keyed; owned = i.kept.owned }) i.kept;
  own =
      All-map (λ p own. IsOwn-Extends p (unchanged s.shared (start_sweeps s.shared.held)) own)
        s.requests i.own;
}
Step-IsSound (closes s) i = record {
  kept = record { ledger = i.kept.ledger; keyed = i.kept.keyed; owned = i.kept.owned };
  own =
      All-map (λ p own. IsOwn-Extends p (unchanged s.shared (mark_closed s.shared.held)) own)
        s.requests i.own;
}
Step-IsSound (takes_all s) i = record {
  kept = take_sessions-IsKept (λ e. true) s.shared _ i.kept;
  own =
      All-map
        (λ p own.
          IsOwn-Extends p (unchanged s.shared (take_sessions (λ e. true) s.shared.held)) own)
        s.requests i.own;
}

-- In every state that interleaved requests, sweeps and calls of Configure and Close
-- reach, each session that the server
-- opened is held, in flight with one request, ended or given up: exactly one of these, exactly once. No
-- key has two sessions, each session is held under the key that it was opened for, and each request
-- works in a session of its own key.
pub Reach-IsSound : {s : System} → Reach s → IsSound s
Reach-IsSound here = record {
  kept = record { ledger = λ id. ground arith; keyed = tt; owned = tt };
  own = tt;
}
Reach-IsSound (next r step) = Step-IsSound step (Reach-IsSound r)

All-Mem {ℓ κ} : {A : Type ℓ} (P : A → Type κ) (x : A) (xs : List A) → All P xs → Memᴰ x xs → P x
All-Mem P x [] h m = elim m [ ]
All-Mem P x (y ∷ ys) h (Memᴰ.head e) = subst P (sym e) h.0
All-Mem P x (y ∷ ys) h (Memᴰ.tail m) = All-Mem P x ys h.1 m

-- However the requests interleave, two that are in the same session at the server have the same key:
-- no conversation ever acts in another's session.
pub isolated :
    {s : System} (key key' : String) (again again' : Bool) (id : ℕ)
    → Reach s
    → Memᴰ (posting key again (some id)) s.requests
    → Memᴰ (posting key' again' (some id)) s.requests
    → key ≡ key'
isolated {s} key key' again again' id r m m' =
    let own = (Reach-IsSound r).own in
    let first = All-Mem (IsOwn s.shared) _ s.requests own m in
    let second = All-Mem (IsOwn s.shared) _ s.requests own m' in ground (arith, first.1, second.1)
