-- ===== src/Mcp/Isolated.antt =====
-- pkg/proxy/mcp/session.go: however requests interleave, each works in a session of its own key, and no
-- session is lost or ended twice.
use forager.Prelude.{
  ℕ, ◌+◌, ◌≤◌, ◌<◌, ◌≡◌, refl, if_both, Bool, true, String, ◌∷◌, Option, none, some, ◌==◌, nat_eq,
  lookup, delete, arith, All-map,
}
use forager.Prelude.Keyed.{one_if, delete-IsKeyed, total-delete, delete-All}
use forager.Mcp.{
  Session, HeldSessions, Found, proxy_closed, without, needed, within, ensure_begin, ensure_end,
  drop_found, drop_session, Handshake, failed, rejected, no_sessions, opened, is_sessionless,
  after_handshake, session_gone,
}
use forager.Mcp.Threads.{
  Phase, waiting, shaking, shaken, posting, finished, Shared, Choice, takes_lock, unanswered,
  answered, new_session, responded, after_found, without_session, after_stored, take_over,
  after_answer, after_response, advance,
}
use forager.Mcp.Owned.{
  in_flight, IsOpenedFor, IsOwned, IsOwn, IsKept, ensure_begin-IsFound, ensure_end-IsStored,
}

pub IsKept-map : (sh : Shared) (f g : ℕ → ℕ) → ((id : ℕ) → f id ≡ g id) → IsKept sh f → IsKept sh g
IsKept-map sh f g same k = record {
  ledger = λ id. omega (arith, k.ledger id, same id);
  keyed = k.keyed;
  owned = k.owned;
}

-- The server has given out more sessions, and the earlier ones are as they were.
pub record Extends (sh sh' : Shared) : Type 0 where
  pub more : sh.opened ≤ sh'.opened
  pub same : (id : ℕ) → id < sh.opened → sh'.owner id ≡ sh.owner id

IsOpenedFor-Extends :
    {sh sh' : Shared} (key : String) (id : ℕ)
    → Extends sh sh'
    → IsOpenedFor sh key id
    → IsOpenedFor sh' key id
IsOpenedFor-Extends key id x own = (omega (arith, x.more, own.0), ground (arith, x.same id own.0))

pub IsOwn-Extends : {sh sh' : Shared} (p : Phase) → Extends sh sh' → IsOwn sh p → IsOwn sh' p
IsOwn-Extends (waiting key again) x own = tt
IsOwn-Extends (shaking key again) x own = tt
IsOwn-Extends (shaken key again id) x own = IsOpenedFor-Extends key id x own
IsOwn-Extends (posting key again none) x own = tt
IsOwn-Extends (posting key again (some id)) x own = IsOpenedFor-Extends key id x own
IsOwn-Extends finished x own = tt

-- What a step of one request leaves, beside the other requests' sessions in flight.
pub record IsAdvanced (sh : Shared) (rest : ℕ → ℕ) (r : Shared × Phase) : Type 0 where
  pub kept : IsKept r.0 (λ id. in_flight id r.1 + rest id)
  pub own : IsOwn r.0 r.1
  pub grown : Extends sh r.0

pub unchanged : (sh : Shared) (s : HeldSessions) → Extends sh (record sh { held = s })
unchanged sh s = record { more = omega arith; same = λ id h. refl }

found_in_flight :
    (id : ℕ) (key : String) (again : Bool) (f : Found) → in_flight id (after_found key again f) ≡ 0
found_in_flight id key again proxy_closed = refl
found_in_flight id key again without = refl
found_in_flight id key again needed = refl
found_in_flight id key again (within new) = refl

stored_in_flight :
    (id : ℕ) (key : String) (again : Bool) (o : Option ℕ)
    → in_flight id (after_stored key again o) ≡ 0
stored_in_flight id key again none = refl
stored_in_flight id key again (some new) = refl

module _ (sh : Shared) (rest : ℕ → ℕ) where
  begun-IsAdvanced :
      (now : ℕ) (key : String) (again : Bool)
      → IsKept sh rest
      → IsAdvanced sh rest (advance (takes_lock now) (waiting key again) sh)
  unfolding advance
  begun-IsAdvanced now key again k =
      let (kept, own) = ensure_begin-IsFound now key sh again rest k in
      let found = (ensure_begin now key sh.held).1 in
      record {
        kept = IsKept-map _ rest _ (λ id. omega (arith, found_in_flight id key again found)) kept;
        own = own;
        grown = unchanged sh (ensure_begin now key sh.held).0;
      }

  stored-IsAdvanced :
      (now : ℕ) (key : String) (again : Bool) (new : ℕ)
      → IsOpenedFor sh key new
      → IsKept sh (λ id. one_if (new == id) + rest id)
      → IsAdvanced sh rest (advance (takes_lock now) (shaken key again new) sh)
  unfolding advance
  stored-IsAdvanced now key again new own k =
      let (kept, own') = ensure_end-IsStored now key sh new again rest own k in
      let stored = (ensure_end now key new sh.held).1 in
      record {
        kept = IsKept-map _ rest _ (λ id. omega (arith, stored_in_flight id key again stored)) kept;
        own = own';
        grown = unchanged sh (ensure_end now key new sh.held).0;
      }

  opened-IsAdvanced :
      (key : String) (again : Bool)
      → IsKept sh rest
      → IsAdvanced sh rest (advance new_session (shaking key again) sh)
  unfolding advance
  opened-IsAdvanced key again k =
      let grown : Extends sh (take_over key sh) = record {
        more = omega arith;
        same = λ id h. ground arith;
      } in
      record {
        kept = record {
          ledger = λ id. ground (arith, k.ledger id);
          keyed = k.keyed;
          owned =
              All-map (λ x own. IsOpenedFor-Extends x.0 x.1.id grown own) sh.held.sessions k.owned;
        };
        own = (omega arith, ground arith);
        grown = grown;
      }

  stays :
      (p : Phase)
      → IsOwn sh p
      → IsKept sh (λ id. in_flight id p + rest id)
      → IsAdvanced sh rest (sh, p)
  stays p own k = record { kept = k; own = own; grown = unchanged sh sh.held }

  -- A request without a session in flight, behind a step that wrote `s`.
  module _ (s : HeldSessions) (k : IsKept (record sh { held = s }) rest) where
    abbrev IsIdle : Phase → Type 0
    IsIdle p = IsOwn sh p × ((id : ℕ) → in_flight id p ≡ 0)

    moves : (p : Phase) → IsIdle p → IsAdvanced sh rest (record sh { held = s }, p)
    moves p idle = record {
      kept = IsKept-map _ rest _ (λ id. omega (arith, idle.1 id)) k;
      own = idle.0;
      grown = unchanged sh s;
    }

    without_session-IsIdle :
        (key : String) (again : Bool) (h : Handshake) → IsIdle (without_session key again h)
    without_session-IsIdle key again no_sessions = (tt, λ id. refl)
    without_session-IsIdle key again failed =
        if_both IsIdle again _ _ (tt, λ id. refl) (tt, λ id. refl)
    without_session-IsIdle key again rejected =
        if_both IsIdle again _ _ (tt, λ id. refl) (tt, λ id. refl)
    without_session-IsIdle key again (opened id) =
        if_both IsIdle again _ _ (tt, λ id. refl) (tt, λ id. refl)

  forgotten-IsKept :
      (key : String) (e : Session)
      → lookup key sh.held.sessions ≡ some e
      → IsKept sh rest
      → IsKept
          (record sh {
            held = record sh.held {
              sessions = delete key sh.held.sessions;
              forgotten = e.id ∷ sh.held.forgotten;
            };
          })
          rest
  forgotten-IsKept key e found k = record {
    ledger = λ id. ground (
      arith,
      k.ledger id,
      total-delete key e (λ (d : Session). one_if (d.id == id)) sh.held.sessions k.keyed found,
    );
    keyed = delete-IsKeyed key sh.held.sessions k.keyed;
    owned = delete-All (IsOwned sh) key sh.held.sessions k.owned;
  }

  drop_found-IsKept :
      (key : String) (id : ℕ) (o : Option Session)
      → lookup key sh.held.sessions ≡ o
      → IsKept sh rest
      → IsKept (record sh { held = drop_found key id o sh.held }) rest
  drop_found-IsKept key id none found k = k
  drop_found-IsKept key id (some e) found k =
      if_both (λ (s : HeldSessions). IsKept (record sh { held = s }) rest) (e.id == id) _ _
        (forgotten-IsKept key e found k) k

  drop_session-IsKept :
      (key : String) (id : ℕ)
      → IsKept sh rest
      → IsKept (record sh { held = drop_session key id sh.held }) rest
  unfolding drop_session
  drop_session-IsKept key id k = drop_found-IsKept key id (lookup key sh.held.sessions) refl k

  after_response-IsAdvanced :
      (key : String) (again : Bool) (o : Option ℕ) (status : ℕ)
      → IsKept sh rest
      → IsAdvanced sh rest (after_response key again o status sh)
  after_response-IsAdvanced key again none status k = moves sh.held k finished (tt, λ id. refl)
  after_response-IsAdvanced key again (some id) status k =
      let P = IsAdvanced sh rest in
      let finishes = moves sh.held k finished (tt, λ id. refl) in
      let drops =
        moves (drop_session key id sh.held) (drop_session-IsKept key id k) (waiting key true)
          (tt, λ id. refl) in
      if_both P (session_gone status (some id)) _ _ (if_both P again _ _ finishes drops) finishes

  -- A handshake that opens no session writes none.
  handshake-IsAdvanced :
      (now : ℕ) (key : String) (again : Bool) (h : Handshake)
      → IsKept sh rest
      → IsAdvanced sh rest
          (record sh { held = after_handshake now h sh.held }, without_session key again h)
  handshake-IsAdvanced now key again h k =
      let kept : IsKept (record sh { held = after_handshake now h sh.held }) rest =
        if_both (λ (s : HeldSessions). IsKept (record sh { held = s }) rest) (is_sessionless h) _ _
          (record { ledger = k.ledger; keyed = k.keyed; owned = k.owned }) k in
      moves (after_handshake now h sh.held) kept (without_session key again h)
        (without_session-IsIdle (after_handshake now h sh.held) kept key again h)

  after_answer-IsAdvanced :
      (now : ℕ) (key : String) (again : Bool) (h : Handshake)
      → IsKept sh rest
      → IsAdvanced sh rest (after_answer now key again h sh)
  after_answer-IsAdvanced now key again (opened id) k =
      moves sh.held k (shaking key again) (tt, λ id. refl)
  after_answer-IsAdvanced now key again failed k = handshake-IsAdvanced now key again failed k
  after_answer-IsAdvanced now key again rejected k = handshake-IsAdvanced now key again rejected k
  after_answer-IsAdvanced now key again no_sessions k =
      handshake-IsAdvanced now key again no_sessions k

  pub advance-IsAdvanced :
      (c : Choice) (p : Phase)
      → IsOwn sh p
      → IsKept sh (λ id. in_flight id p + rest id)
      → IsAdvanced sh rest (advance c p sh)
  unfolding advance
  advance-IsAdvanced (takes_lock now) (waiting key again) own k =
      begun-IsAdvanced now key again (IsKept-map sh _ rest (λ id. omega arith) k)
  advance-IsAdvanced unanswered (waiting key again) own k = stays _ own k
  advance-IsAdvanced (answered now h) (waiting key again) own k = stays _ own k
  advance-IsAdvanced new_session (waiting key again) own k = stays _ own k
  advance-IsAdvanced (responded status) (waiting key again) own k = stays _ own k
  advance-IsAdvanced (takes_lock now) (shaking key again) own k = stays _ own k
  advance-IsAdvanced unanswered (shaking key again) own k =
      let k' = IsKept-map sh _ rest (λ id. omega arith) k in
      moves sh.held k' (without_session key again failed)
        (without_session-IsIdle sh.held k' key again failed)
  advance-IsAdvanced (answered now h) (shaking key again) own k =
      after_answer-IsAdvanced now key again h (IsKept-map sh _ rest (λ id. omega arith) k)
  advance-IsAdvanced new_session (shaking key again) own k =
      opened-IsAdvanced key again (IsKept-map sh _ rest (λ id. omega arith) k)
  advance-IsAdvanced (responded status) (shaking key again) own k = stays _ own k
  advance-IsAdvanced (takes_lock now) (shaken key again id) own k =
      stored-IsAdvanced now key again id own k
  advance-IsAdvanced unanswered (shaken key again id) own k = stays _ own k
  advance-IsAdvanced (answered now h) (shaken key again id) own k = stays _ own k
  advance-IsAdvanced new_session (shaken key again id) own k = stays _ own k
  advance-IsAdvanced (responded status) (shaken key again id) own k = stays _ own k
  advance-IsAdvanced (takes_lock now) (posting key again o) own k = stays _ own k
  advance-IsAdvanced unanswered (posting key again o) own k =
      moves sh.held (IsKept-map sh _ rest (λ id. omega arith) k) finished (tt, λ id. refl)
  advance-IsAdvanced (answered now h) (posting key again o) own k = stays _ own k
  advance-IsAdvanced new_session (posting key again o) own k = stays _ own k
  advance-IsAdvanced (responded status) (posting key again o) own k =
      after_response-IsAdvanced key again o status (IsKept-map sh _ rest (λ id. omega arith) k)
  advance-IsAdvanced (takes_lock now) finished own k = stays _ own k
  advance-IsAdvanced unanswered finished own k = stays _ own k
  advance-IsAdvanced (answered now h) finished own k = stays _ own k
  advance-IsAdvanced new_session finished own k = stays _ own k
  advance-IsAdvanced (responded status) finished own k = stays _ own k
