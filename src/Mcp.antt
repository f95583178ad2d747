-- ===== src/Mcp.antt =====
-- pkg/proxy/mcp/session.go and proxy.go: the sessions that the MCP proxy holds at its server, one for
-- each conversation. Each function on them is what runs under one hold of `sessionMu`.
pub mod Threads
pub mod Owned
pub mod Isolated
pub mod Reached
pub mod Closed
pub mod Ends
pub mod Tokens
pub mod Events
use forager.Prelude.{
  ℕ, ◌+◌, Bool, true, false, ◌&&◌, not, String, List, [], ◌∷◌, Option, none, some, ltb, leb, ◌==◌,
  nat_eq, if◌then◌else◌, Map, lookup, insert, delete,
}
use forager.Prelude.Keyed.{take_where}

-- `mcpSession`. An id of the server is known by a number.
pub record Session : Type 0 where
  pub id : ℕ
  pub last_used : ℕ

-- `sweeping` tells whether the goroutine of `sweepSessions` runs. `terminated` lists the ids that the
-- server was asked to end, and `forgotten` those that were given up without that, latest first.
pub record HeldSessions : Type 0 where
  pub sessions : Map Session
  pub sessionless_until : ℕ
  pub sweeping : Bool
  pub closed : Bool
  pub terminated : List ℕ
  pub forgotten : List ℕ

abbrev pub new_sessions : HeldSessions
new_sessions = record {
  sessions = [];
  sessionless_until = 0;
  sweeping = false;
  closed = false;
  terminated = [];
  forgotten = [];
}

-- 30 * time.Minute, in nanoseconds
abbrev pub session_idle_ttl : ℕ
session_idle_ttl = 1_800_000_000_000

-- time.Since(s.lastUsed) < sessionIdleTTL
abbrev pub is_live : ℕ → Session → Bool
is_live now e = ltb now (e.last_used + session_idle_ttl)

-- What the first half of `ensureSession` finds: a closed proxy, a server without sessions, a session,
-- or that one has to be opened.
pub data Found : Type 0 where
  proxy_closed without needed : Found
  within : ℕ → Found

abbrev pub find_session : ℕ → String → Option Session → HeldSessions → HeldSessions × Found
find_session now key none s = (s, needed)
find_session now key (some e) s =
    if is_live now e
    then (
      record s { sessions = insert key (record { id = e.id; last_used = now }) s.sessions },
      within e.id,
    )
    else (record s { sessions = delete key s.sessions; terminated = e.id ∷ s.terminated }, needed)

-- `ensureSession` up to the handshake.
unfoldable pub ensure_begin : ℕ → String → HeldSessions → HeldSessions × Found
ensure_begin now key s =
    if s.closed
    then (s, proxy_closed)
    else if ltb now s.sessionless_until
    then (s, without)
    else find_session now key (lookup key s.sessions) s

-- What `initializeSession` gives: an error, an error that tells that the server has no sessions, no
-- error and no session, or a session.
pub data Handshake : Type 0 where
  failed rejected no_sessions : Handshake
  opened : ℕ → Handshake

-- The answer to the initialize request, or none: its status and its Mcp-Session-Id.
unfoldable pub initialize_session : Option (ℕ × Option ℕ) → Handshake
initialize_session none = failed
initialize_session (some (status, id)) =
    if leb 400 status
    then (if ltb status 500 then rejected else failed)
    else elim id [ none ↦ no_sessions | some id ↦ opened id ]

abbrev pub is_sessionless : Handshake → Bool
is_sessionless rejected = true
is_sessionless no_sessions = true
is_sessionless _ = false

abbrev pub after_handshake : ℕ → Handshake → HeldSessions → HeldSessions
after_handshake now h s =
    if is_sessionless h then record s { sessionless_until = now + session_idle_ttl } else s

abbrev pub store_session : ℕ → String → ℕ → Option Session → HeldSessions → HeldSessions × Option ℕ
store_session now key id none s =
    (record s { sessions = insert key (record { id = id; last_used = now }) s.sessions }, some id)
store_session now key id (some e) s =
    if is_live now e
    then (
      record s {
        sessions = insert key (record { id = e.id; last_used = now }) s.sessions;
        terminated = id ∷ s.terminated;
      },
      some e.id,
    )
    else (
      record s {
        sessions = insert key (record { id = id; last_used = now }) s.sessions;
        forgotten = e.id ∷ s.forgotten;
      },
      some id,
    )

-- `ensureSession` behind a handshake that opened a session: the id to use, or `none` where the proxy
-- is closed. A session that another request stored meanwhile is shared.
unfoldable pub ensure_end : ℕ → String → ℕ → HeldSessions → HeldSessions × Option ℕ
ensure_end now key id s =
    if s.closed
    then (record s { terminated = id ∷ s.terminated }, none)
    else store_session now key id (lookup key s.sessions) s

abbrev pub drop_found : String → ℕ → Option Session → HeldSessions → HeldSessions
drop_found key id none s = s
drop_found key id (some e) s =
    if e.id == id
    then record s { sessions = delete key s.sessions; forgotten = e.id ∷ s.forgotten }
    else s

unfoldable pub drop_session : String → ℕ → HeldSessions → HeldSessions
drop_session key id s = drop_found key id (lookup key s.sessions) s

-- `takeSessions`, with the termination of what it takes.
unfoldable pub take_sessions : (Session → Bool) → HeldSessions → HeldSessions
unfolding take_where
take_sessions is_taken s =
    let (kept, taken) = take_where (λ (e : Session). e.id) is_taken s.sessions s.terminated in
    record s { sessions = kept; terminated = taken }

-- A round of `sweepSessions`.
unfoldable pub sweep_sessions : ℕ → HeldSessions → HeldSessions
unfolding take_sessions
sweep_sessions now s = take_sessions (λ e. leb (e.last_used + session_idle_ttl) now) s

-- `Configure` under its hold of the lock: the sweeps start, once.
unfoldable pub start_sweeps : HeldSessions → HeldSessions
start_sweeps s = if not s.sweeping && not s.closed then record s { sweeping = true } else s

-- `Close` under its first hold of the lock.
unfoldable pub mark_closed : HeldSessions → HeldSessions
mark_closed s = record s { closed = true; sweeping = false }

-- `sessionGone`, for a request that was sent in a session or in none.
unfoldable pub session_gone : ℕ → Option ℕ → Bool
session_gone status none = false
session_gone status (some id) = status == 404
