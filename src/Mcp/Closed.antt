-- ===== src/Mcp/Closed.antt =====
-- pkg/proxy/mcp/proxy.go and session.go: a closed proxy holds no session again.
use forager.Prelude.{ℕ, ◌≡◌, refl, Bool, true, String, [], Option, none, some, arith}
use forager.Prelude.Keyed.{take_where, lookup_empty}
use forager.Mcp.{
  Session, ensure_begin, ensure_end, drop_session, take_sessions, sweep_sessions, start_sweeps,
  mark_closed, Handshake, failed, rejected, no_sessions, opened,
}
use forager.Mcp.Threads.{
  Phase, waiting, shaking, shaken, posting, finished, Shared, Choice, takes_lock, unanswered,
  answered, new_session, responded, after_response, after_answer, advance, System, Step, arrives,
  advances, sweeps, configures, closes, takes_all,
}

abbrev pub IsShut : Shared → Type 0
IsShut sh = (sh.held.closed ≡ true) × (sh.held.sessions ≡ [])

after_answer-IsShut :
    (now : ℕ) (key : String) (again : Bool) (h : Handshake) (sh : Shared)
    → IsShut sh
    → IsShut (after_answer now key again h sh).0
after_answer-IsShut now key again failed sh shut = shut
after_answer-IsShut now key again rejected sh shut = shut
after_answer-IsShut now key again no_sessions sh shut = shut
after_answer-IsShut now key again (opened id) sh shut = shut

drop_session-same :
    (key : String) (id : ℕ) (sh : Shared) → IsShut sh → drop_session key id sh.held ≡ sh.held
unfolding drop_session
drop_session-same key id sh shut = ground (arith, shut.1, lookup_empty {V = Session} key)

after_response-IsShut :
    (key : String) (again : Bool) (o : Option ℕ) (status : ℕ) (sh : Shared)
    → IsShut sh
    → IsShut (after_response key again o status sh).0
after_response-IsShut key again none status sh shut = shut
after_response-IsShut key again (some id) status sh shut =
    ground (arith, shut.0, shut.1, drop_session-same key id sh shut)

advance-IsShut : (c : Choice) (p : Phase) (sh : Shared) → IsShut sh → IsShut (advance c p sh).0
unfolding advance ensure_begin ensure_end
advance-IsShut (takes_lock now) (waiting key again) sh shut = ground (arith, shut.0, shut.1)
advance-IsShut (takes_lock now) (shaking key again) sh shut = shut
advance-IsShut (takes_lock now) (shaken key again id) sh shut = ground (arith, shut.0, shut.1)
advance-IsShut (takes_lock now) (posting key again o) sh shut = shut
advance-IsShut (takes_lock now) finished sh shut = shut
advance-IsShut unanswered (waiting key again) sh shut = shut
advance-IsShut unanswered (shaking key again) sh shut = shut
advance-IsShut unanswered (shaken key again id) sh shut = shut
advance-IsShut unanswered (posting key again o) sh shut = shut
advance-IsShut unanswered finished sh shut = shut
advance-IsShut (answered now h) (waiting key again) sh shut = shut
advance-IsShut (answered now h) (shaking key again) sh shut =
    after_answer-IsShut now key again h sh shut
advance-IsShut (answered now h) (shaken key again id) sh shut = shut
advance-IsShut (answered now h) (posting key again o) sh shut = shut
advance-IsShut (answered now h) finished sh shut = shut
advance-IsShut new_session (waiting key again) sh shut = shut
advance-IsShut new_session (shaking key again) sh shut = shut
advance-IsShut new_session (shaken key again id) sh shut = shut
advance-IsShut new_session (posting key again o) sh shut = shut
advance-IsShut new_session finished sh shut = shut
advance-IsShut (responded status) (waiting key again) sh shut = shut
advance-IsShut (responded status) (shaking key again) sh shut = shut
advance-IsShut (responded status) (shaken key again id) sh shut = shut
advance-IsShut (responded status) (posting key again o) sh shut =
    after_response-IsShut key again o status sh shut
advance-IsShut (responded status) finished sh shut = shut

take_sessions-IsShut :
    (is_taken : Session → Bool) (sh : Shared)
    → IsShut sh
    → IsShut (record sh { held = take_sessions is_taken sh.held })
unfolding take_sessions take_where
take_sessions-IsShut is_taken sh shut = (shut.0, ground (arith, shut.1))

-- Once the proxy is closed and its sessions are taken, no step of a request, a sweep, Configure or a
-- further Close makes it hold a session or opens it again.
pub Step-IsShut : {s t : System} → Step s t → IsShut s.shared → IsShut t.shared
unfolding sweep_sessions mark_closed start_sweeps
Step-IsShut (arrives s key) shut = shut
Step-IsShut (advances sh before phase after choice) shut = advance-IsShut choice phase sh shut
Step-IsShut (sweeps s now) shut = take_sessions-IsShut _ s.shared shut
Step-IsShut (configures s) shut = ground (arith, shut.0, shut.1)
Step-IsShut (closes s) shut = (refl, shut.1)
Step-IsShut (takes_all s) shut = take_sessions-IsShut (λ e. true) s.shared shut
