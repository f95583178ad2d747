-- ===== src/Mcp/Owned.antt =====
-- pkg/proxy/mcp/session.go: one step of a request keeps the account of the sessions.
use forager.Prelude.{
  ℕ, ◌+◌, ◌<◌, ◌≡◌, refl, if_both, Bool, String, ◌∷◌, Option, none, some, ltb, ◌==◌, nat_eq,
  string_eq, Map, lookup, insert, delete, arith, All,
}
use forager.Prelude.Keyed.{
  one_if, count, total, IsKeyed, insert-IsKeyed, delete-IsKeyed, total-delete, delete_absent,
  delete-All, lookup-All,
}
use forager.Mcp.{
  Session, HeldSessions, is_live, Found, find_session, ensure_begin, store_session, ensure_end,
}
use forager.Mcp.Threads.{Phase, shaken, posting, Shared, after_found, after_stored}

abbrev pub holding : ℕ → Map Session → ℕ
holding id = total (λ (e : Session). one_if (e.id == id))

-- The session that a request has opened and not yet stored.
abbrev pub in_flight : ℕ → Phase → ℕ
in_flight id (shaken key again new) = one_if (new == id)
in_flight id _ = 0

-- A session that the server opened for the key.
abbrev pub IsOpenedFor : Shared → String → ℕ → Type 0
IsOpenedFor sh key id = (id < sh.opened) × (sh.owner id ≡ key)

abbrev pub IsOwned : Shared → String × Session → Type 0
IsOwned sh (key, e) = IsOpenedFor sh key e.id

-- A request works in a session of its own key.
abbrev pub IsOwn : Shared → Phase → Type 0
IsOwn sh (shaken key again id) = IsOpenedFor sh key id
IsOwn sh (posting key again (some id)) = IsOpenedFor sh key id
IsOwn sh _ = Unit {0}

-- Each session that was opened is held, in flight, ended or given up, and only one of these, once;
-- `flight` counts it among all requests. Each is held under the key that it was opened for.
pub record IsKept (sh : Shared) (flight : ℕ → ℕ) : Type 0 where
  pub ledger :
      (id : ℕ)
      → holding id sh.held.sessions
          + flight id
          + count id sh.held.terminated
          + count id sh.held.forgotten
        ≡ one_if (ltb id sh.opened)
  pub keyed : IsKeyed sh.held.sessions
  pub owned : All (IsOwned sh) sh.held.sessions

module _ (now : ℕ) (key : String) (sh : Shared) where
  abbrev pub hold : HeldSessions → Shared
  hold s = record sh { held = s }

  -- The session of the key is refreshed.
  refreshed-IsKept :
      (e : Session) (flight : ℕ → ℕ)
      → lookup key sh.held.sessions ≡ some e
      → IsKept sh flight
      → IsKept
          (hold (record sh.held {
            sessions = insert key (record { id = e.id; last_used = now }) sh.held.sessions;
          }))
          flight
  unfolding insert
  refreshed-IsKept e flight found k = record {
    ledger = λ id. ground (
      arith,
      k.ledger id,
      total-delete key e (λ (d : Session). one_if (d.id == id)) sh.held.sessions k.keyed found,
    );
    keyed = insert-IsKeyed key (record { id = e.id; last_used = now }) sh.held.sessions k.keyed;
    owned = (
      lookup-All (IsOwned sh) key e sh.held.sessions k.owned found,
      delete-All (IsOwned sh) key sh.held.sessions k.owned,
    );
  }

  -- An expired session of the key is taken out and ended.
  expired-IsKept :
      (e : Session) (flight : ℕ → ℕ)
      → lookup key sh.held.sessions ≡ some e
      → IsKept sh flight
      → IsKept
          (hold (record sh.held {
            sessions = delete key sh.held.sessions;
            terminated = e.id ∷ sh.held.terminated;
          }))
          flight
  expired-IsKept e flight found k = record {
    ledger = λ id. ground (
      arith,
      k.ledger id,
      total-delete key e (λ (d : Session). one_if (d.id == id)) sh.held.sessions k.keyed found,
    );
    keyed = delete-IsKeyed key sh.held.sessions k.keyed;
    owned = delete-All (IsOwned sh) key sh.held.sessions k.owned;
  }

  abbrev pub IsFound : Bool → (ℕ → ℕ) → HeldSessions × Found → Type 0
  IsFound again flight r = IsKept (hold r.0) flight × IsOwn sh (after_found key again r.1)

  find_session-IsFound :
      (o : Option Session) (again : Bool) (flight : ℕ → ℕ)
      → lookup key sh.held.sessions ≡ o
      → IsKept sh flight
      → IsFound again flight (find_session now key o sh.held)
  find_session-IsFound none again flight found k = (k, tt)
  find_session-IsFound (some e) again flight found k =
      if_both (IsFound again flight) (is_live now e) _ _
        (
          refreshed-IsKept e flight found k,
          lookup-All (IsOwned sh) key e sh.held.sessions k.owned found,
        )
        (expired-IsKept e flight found k, tt)

  pub ensure_begin-IsFound :
      (again : Bool) (flight : ℕ → ℕ)
      → IsKept sh flight
      → IsFound again flight (ensure_begin now key sh.held)
  unfolding ensure_begin
  ensure_begin-IsFound again flight k =
      let P = IsFound again flight in
      if_both P sh.held.closed _ _ (k, tt)
        (if_both P (ltb now sh.held.sessionless_until) _ _ (k, tt)
          (find_session-IsFound (lookup key sh.held.sessions) again flight refl k))

  -- A new session leaves the flight: it is stored, or ended.
  abbrev pub IsStored : Bool → (ℕ → ℕ) → HeldSessions × Option ℕ → Type 0
  IsStored again flight r = IsKept (hold r.0) flight × IsOwn sh (after_stored key again r.1)

  module _ (new : ℕ) (again : Bool) (flight : ℕ → ℕ) (own : IsOpenedFor sh key new)
      (k : IsKept sh (λ id. one_if (new == id) + flight id)) where
    ended-IsKept : IsKept (hold (record sh.held { terminated = new ∷ sh.held.terminated })) flight
    ended-IsKept = record {
      ledger = λ id. ground (arith, k.ledger id);
      keyed = k.keyed;
      owned = k.owned;
    }

    shared-IsKept :
        (e : Session)
        → lookup key sh.held.sessions ≡ some e
        → IsKept
            (hold (record sh.held {
              sessions = insert key (record { id = e.id; last_used = now }) sh.held.sessions;
              terminated = new ∷ sh.held.terminated;
            }))
            flight
    shared-IsKept e found =
        let r = refreshed-IsKept e (λ id. one_if (new == id) + flight id) found k in
        record { ledger = λ id. ground (arith, r.ledger id); keyed = r.keyed; owned = r.owned }

    stored-IsKept :
        lookup key sh.held.sessions ≡ none
        → IsKept
            (hold (record sh.held {
              sessions = insert key (record { id = new; last_used = now }) sh.held.sessions;
            }))
            flight
    unfolding insert
    stored-IsKept absent = record {
      ledger = λ id. ground (arith, k.ledger id, delete_absent key sh.held.sessions absent);
      keyed = insert-IsKeyed key (record { id = new; last_used = now }) sh.held.sessions k.keyed;
      owned = (own, delete-All (IsOwned sh) key sh.held.sessions k.owned);
    }

    replaced-IsKept :
        (e : Session)
        → lookup key sh.held.sessions ≡ some e
        → IsKept
            (hold (record sh.held {
              sessions = insert key (record { id = new; last_used = now }) sh.held.sessions;
              forgotten = e.id ∷ sh.held.forgotten;
            }))
            flight
    unfolding insert
    replaced-IsKept e found = record {
      ledger = λ id. ground (
        arith,
        k.ledger id,
        total-delete key e (λ (d : Session). one_if (d.id == id)) sh.held.sessions k.keyed found,
      );
      keyed = insert-IsKeyed key (record { id = new; last_used = now }) sh.held.sessions k.keyed;
      owned = (own, delete-All (IsOwned sh) key sh.held.sessions k.owned);
    }

    store_session-IsStored :
        (o : Option Session)
        → lookup key sh.held.sessions ≡ o
        → IsStored again flight (store_session now key new o sh.held)
    store_session-IsStored none absent = (stored-IsKept absent, own)
    store_session-IsStored (some e) found =
        if_both (IsStored again flight) (is_live now e) _ _
          (shared-IsKept e found, lookup-All (IsOwned sh) key e sh.held.sessions k.owned found)
          (replaced-IsKept e found, own)

    pub ensure_end-IsStored : IsStored again flight (ensure_end now key new sh.held)
    unfolding ensure_end
    ensure_end-IsStored =
        if_both (IsStored again flight) sh.held.closed _ _ (ended-IsKept, tt)
          (store_session-IsStored (lookup key sh.held.sessions) refl)
