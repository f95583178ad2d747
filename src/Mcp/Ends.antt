-- ===== src/Mcp/Ends.antt =====
-- pkg/proxy/mcp/session.go: a request comes to its end, after one retry at most.
use forager.Prelude.{
  ℕ, ◌+◌, ◌<◌, ◌≤◌, ◌≡◌, ◌⊎◌, refl, inl, inr, Bool, true, false, String, Option, none, some,
  if◌then◌else◌, arith,
}
use forager.Mcp.{
  Found, proxy_closed, without, needed, within, ensure_begin, ensure_end, Handshake, failed,
  rejected, no_sessions, opened,
}
use forager.Mcp.Threads.{
  Phase, waiting, shaking, shaken, posting, finished, Shared, Choice, takes_lock, unanswered,
  answered, new_session, responded, after_found, without_session, after_stored, after_answer,
  after_response, advance,
}

-- How many steps a request has left at most: its first try comes before the second.
abbrev pub tries_left : Bool → ℕ
tries_left again = if again then 0 else 4

abbrev pub steps_left : Phase → ℕ
steps_left finished = 0
steps_left (posting key again id) = 1 + tries_left again
steps_left (shaken key again id) = 2 + tries_left again
steps_left (shaking key again) = 3 + tries_left again
steps_left (waiting key again) = 4 + tries_left again

found_left :
    (key : String) (again : Bool) (f : Found)
    → steps_left (after_found key again f) < steps_left (waiting key again)
found_left key again proxy_closed = omega arith
found_left key again without = omega arith
found_left key again needed = omega arith
found_left key again (within id) = omega arith

without_session_left :
    (key : String) (again : Bool) (h : Handshake)
    → steps_left (without_session key again h) < steps_left (shaking key again)
without_session_left key again failed = ground arith
without_session_left key again rejected = ground arith
without_session_left key again no_sessions = ground arith
without_session_left key again (opened id) = ground arith

stored_left :
    (key : String) (again : Bool) (new : ℕ) (o : Option ℕ)
    → steps_left (after_stored key again o) < steps_left (shaken key again new)
stored_left key again new none = omega arith
stored_left key again new (some id) = omega arith

response_left :
    (key : String) (again : Bool) (o : Option ℕ) (status : ℕ) (sh : Shared)
    → steps_left (after_response key again o status sh).1 < steps_left (posting key again o)
response_left key again none status sh = omega arith
response_left key true (some id) status sh = ground arith
response_left key false (some id) status sh = ground arith

answer_left :
    (now : ℕ) (key : String) (again : Bool) (h : Handshake) (sh : Shared)
    → (after_answer now key again h sh ≡ (sh, shaking key again))
      ⊎ (steps_left (after_answer now key again h sh).1 < steps_left (shaking key again))
answer_left now key again (opened id) sh = inl refl
answer_left now key again failed sh = inr (without_session_left key again failed)
answer_left now key again rejected sh = inr (without_session_left key again rejected)
answer_left now key again no_sessions sh = inr (without_session_left key again no_sessions)

-- A choice that does not fit the phase changes nothing.
advance_nearer :
    (c : Choice) (p : Phase) (sh : Shared)
    → (advance c p sh ≡ (sh, p)) ⊎ (steps_left (advance c p sh).1 < steps_left p)
unfolding advance
advance_nearer (takes_lock now) (waiting key again) sh =
    inr (found_left key again (ensure_begin now key sh.held).1)
advance_nearer (takes_lock now) (shaking key again) sh = inl refl
advance_nearer (takes_lock now) (shaken key again id) sh =
    inr (stored_left key again id (ensure_end now key id sh.held).1)
advance_nearer (takes_lock now) (posting key again o) sh = inl refl
advance_nearer (takes_lock now) finished sh = inl refl
advance_nearer unanswered (waiting key again) sh = inl refl
advance_nearer unanswered (shaking key again) sh = inr (without_session_left key again failed)
advance_nearer unanswered (shaken key again id) sh = inl refl
advance_nearer unanswered (posting key again o) sh = inr (omega arith)
advance_nearer unanswered finished sh = inl refl
advance_nearer (answered now h) (waiting key again) sh = inl refl
advance_nearer (answered now h) (shaking key again) sh = answer_left now key again h sh
advance_nearer (answered now h) (shaken key again id) sh = inl refl
advance_nearer (answered now h) (posting key again o) sh = inl refl
advance_nearer (answered now h) finished sh = inl refl
advance_nearer new_session (waiting key again) sh = inl refl
advance_nearer new_session (shaking key again) sh = inr (omega arith)
advance_nearer new_session (shaken key again id) sh = inl refl
advance_nearer new_session (posting key again o) sh = inl refl
advance_nearer new_session finished sh = inl refl
advance_nearer (responded status) (waiting key again) sh = inl refl
advance_nearer (responded status) (shaking key again) sh = inl refl
advance_nearer (responded status) (shaken key again id) sh = inl refl
advance_nearer (responded status) (posting key again o) sh =
    inr (response_left key again o status sh)
advance_nearer (responded status) finished sh = inl refl

steps_left_bounded : (p : Phase) → steps_left p ≤ 8
steps_left_bounded finished = omega arith
steps_left_bounded (posting key again id) = ground arith
steps_left_bounded (shaken key again id) = ground arith
steps_left_bounded (shaking key again) = ground arith
steps_left_bounded (waiting key again) = ground arith

-- An unfinished request always has a step to take.
goes_on :
    (p : Phase) (sh : Shared)
    → (p ≡ finished) ⊎ ((c : Choice) × (steps_left (advance c p sh).1 < steps_left p))
unfolding advance
goes_on finished sh = inl refl
goes_on (waiting key again) sh =
    inr (takes_lock 0, found_left key again (ensure_begin 0 key sh.held).1)
goes_on (shaking key again) sh = inr (unanswered, without_session_left key again failed)
goes_on (shaken key again id) sh =
    inr (takes_lock 0, stored_left key again id (ensure_end 0 key id sh.held).1)
goes_on (posting key again id) sh = inr (unanswered, omega arith)

-- A request is at most eight steps from its end, its one retry included: a step that changes anything
-- brings it nearer, in whatever state the proxy is, and an unfinished request always has such a step.
pub advance_ends :
    (c : Choice) (p : Phase) (sh : Shared)
    → (steps_left p ≤ 8)
      × ((advance c p sh ≡ (sh, p)) ⊎ (steps_left (advance c p sh).1 < steps_left p))
      × ((p ≡ finished) ⊎ ((d : Choice) × (steps_left (advance d p sh).1 < steps_left p)))
advance_ends c p sh = (steps_left_bounded p, advance_nearer c p sh, goes_on p sh)
