-- ===== src/Mcp/Threads.antt =====
-- pkg/proxy/mcp/session.go: requests that run at the same time, each between its holds of the lock.
use forager.Prelude.{
  ℕ, ◌+◌, Bool, true, false, String, List, [], ◌∷◌, ◌++◌, Option, none, some, ◌==◌, nat_eq,
  if◌then◌else◌,
}
use forager.Mcp.{
  HeldSessions, new_sessions, Found, proxy_closed, without, needed, within, ensure_begin,
  ensure_end, drop_session, sweep_sessions, take_sessions, mark_closed, start_sweeps, Handshake,
  failed, no_sessions, opened, after_handshake, session_gone,
}

-- Where `handleWithSession` is, for its key; `again` tells that the server had forgotten the session
-- of its first try. `shaking` waits for the answer to initialize, `shaken` has a new session and not
-- yet the lock, and `posting` has sent the request, in a session or in none.
pub data Phase : Type 0 where
  waiting : (key : String) (again : Bool) → Phase
  shaking : (key : String) (again : Bool) → Phase
  shaken : (key : String) (again : Bool) (id : ℕ) → Phase
  posting : (key : String) (again : Bool) (id : Option ℕ) → Phase
  finished : Phase

-- What the requests share, and what the server has given out: it opened the sessions below `opened`,
-- each in answer to an initialize request for the key `owner`.
pub record Shared : Type 0 where
  pub held : HeldSessions
  pub opened : ℕ
  pub owner : ℕ → String

-- What the environment chooses: a time, no answer to a request, an answer to initialize that opens no
-- session, a new session, the status of a response.
pub data Choice : Type 0 where
  takes_lock : (now : ℕ) → Choice
  unanswered : Choice
  answered : (now : ℕ) → Handshake → Choice
  new_session : Choice
  responded : (status : ℕ) → Choice

abbrev pub after_found : String → Bool → Found → Phase
after_found key again proxy_closed = finished
after_found key again without = posting key again none
after_found key again needed = shaking key again
after_found key again (within id) = posting key again (some id)

-- A handshake that opens no session: the second one ends the request if it is an error.
abbrev pub without_session : String → Bool → Handshake → Phase
without_session key again no_sessions = posting key again none
without_session key again _ = if again then finished else posting key again none

abbrev pub after_stored : String → Bool → Option ℕ → Phase
after_stored key again none = finished
after_stored key again (some id) = posting key again (some id)

abbrev pub take_over : String → Shared → Shared
take_over key sh = record sh {
  opened = sh.opened + 1;
  owner = λ j. if j == sh.opened then key else sh.owner j;
}

abbrev pub after_response : String → Bool → Option ℕ → ℕ → Shared → Shared × Phase
after_response key again none status sh = (sh, finished)
after_response key again (some id) status sh =
    if session_gone status (some id)
    then (if again
        then (sh, finished)
        else (record sh { held = drop_session key id sh.held }, waiting key true))
    else (sh, finished)

abbrev pub after_answer : ℕ → String → Bool → Handshake → Shared → Shared × Phase
after_answer now key again (opened id) sh = (sh, shaking key again)
after_answer now key again h sh =
    (record sh { held = after_handshake now h sh.held }, without_session key again h)

-- One step of a request; a choice that does not fit its phase leaves it where it is.
unfoldable pub advance : Choice → Phase → Shared → Shared × Phase
unfolding ensure_begin ensure_end drop_session session_gone
advance (takes_lock now) (waiting key again) sh =
    let (held, found) = ensure_begin now key sh.held in
    (record sh { held = held }, after_found key again found)
advance unanswered (shaking key again) sh = (sh, without_session key again failed)
advance (answered now h) (shaking key again) sh = after_answer now key again h sh
advance new_session (shaking key again) sh = (take_over key sh, shaken key again sh.opened)
advance (takes_lock now) (shaken key again id) sh =
    let (held, stored) = ensure_end now key id sh.held in
    (record sh { held = held }, after_stored key again stored)
advance unanswered (posting key again id) sh = (sh, finished)
advance (responded status) (posting key again id) sh = after_response key again id status sh
advance _ phase sh = (sh, phase)

pub record System : Type 0 where
  pub shared : Shared
  pub requests : List Phase

pub data Step : System → System → Type 0 where
  arrives :
      (s : System) (key : String) → Step s (record s { requests = waiting key false ∷ s.requests })
  advances :
      (sh : Shared) (before : List Phase) (phase : Phase) (after : List Phase) (choice : Choice)
      → Step
          (record { shared = sh; requests = before ++ (phase ∷ after) })
          (record {
            shared = (advance choice phase sh).0;
            requests = before ++ ((advance choice phase sh).1 ∷ after);
          })
  sweeps :
      (s : System) (now : ℕ)
      → Step s (record s { shared = record s.shared { held = sweep_sessions now s.shared.held } })
  configures :
      (s : System)
      → Step s (record s { shared = record s.shared { held = start_sweeps s.shared.held } })
  closes :
      (s : System)
      → Step s (record s { shared = record s.shared { held = mark_closed s.shared.held } })
  takes_all :
      (s : System)
      → Step s
          (record s { shared = record s.shared { held = take_sessions (λ e. true) s.shared.held } })

abbrev pub start : System
start = record {
  shared = record { held = new_sessions; opened = 0; owner = λ id. "" };
  requests = [];
}

pub data Reach : System → Type 0 where
  here : Reach start
  next : {s t : System} → Reach s → Step s t → Reach t
