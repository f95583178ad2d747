-- ===== src/Tests/McpTests.antt =====
-- Runs of the MCP proxy's sessions.
use mathlib.Core.List.{Memᴰ}
use forager.Prelude.{
  ◌≡◌, ◌<◌, ◌⊎◌, refl, Bool, true, false, String, List, [], ◌∷◌, ◌≤◌, ◌+◌, ◌*◌, Map, ok, ltb, leb,
  length, if◌then◌else◌, arith, none, some, lookup, insert, delete,
}
use forager.Mcp.{
  HeldSessions, new_sessions, after_handshake, initialize_session, without, ensure_begin,
  ensure_end, drop_session, session_gone,
}
use forager.Mcp.Threads.{
  waiting, shaken, posting, finished, takes_lock, new_session, responded, advance, Choice, Phase,
  System, Step, arrives, advances, start, take_over, Reach, here, next,
}
use forager.Mcp.Reached.{IsSound, Reach-IsSound, isolated}
use forager.Mcp.Tokens.{
  TokenCache, TokenRequest, TokenAnswer, answered, get_oauth_token, get_oauth_token_lem, expiry,
  second, token_request, take_answer,
}
use forager.Mcp.Events.{parse_sse}
use forager.Prelude.Bytes.{Bytes, bytes_beq, codes}
use forager.Prelude.Int.{pos}
use forager.Mcp.Ends.{steps_left, advance_ends}
use forager.Mcp.Closed.{IsShut, Step-IsShut}

abbrev browser : HeldSessions
browser = record new_sessions { sessions = ("chat", record { id = 0; last_used = 7 }) ∷ [] }

abbrev two_posting : System
two_posting = record {
  shared = record { held = browser; opened = 1; owner = (take_over "chat" start.shared).owner };
  requests = posting "chat" false (some 0) ∷ posting "chat" false (some 0) ∷ [];
}

-- Two requests of one conversation, of which the second finds the session of the first.
two_posting-Reach : Reach two_posting
unfolding advance ensure_begin ensure_end lookup insert delete
two_posting-Reach =
    next
      (next
        (next
          (next (next (next here (arrives _ "chat")) (advances _ [] _ [] (takes_lock 5)))
            (advances _ [] _ [] new_session))
          (advances _ [] _ [] (takes_lock 6)))
        (arrives _ "chat"))
      (advances _ [] _ (posting "chat" false (some 0) ∷ []) (takes_lock 7))

Reach-IsSound_example : IsSound two_posting
Reach-IsSound_example = Reach-IsSound two_posting-Reach

isolated_example : ◌≡◌ {A = String} "chat" "chat"
isolated_example =
    isolated "chat" "chat" false false 0 two_posting-Reach (Memᴰ.head refl)
      (Memᴰ.tail (Memᴰ.head refl))

-- A proxy that was closed while a request had a new session in flight.
abbrev shut : System
shut = record {
  shared = record {
    held = record new_sessions { closed = true };
    opened = 1;
    owner = (take_over "chat" start.shared).owner;
  };
  requests = shaken "chat" false 0 ∷ [];
}

abbrev ended_system : System
ended_system = record {
  shared = record shut.shared { held = record new_sessions { closed = true; terminated = 0 ∷ [] } };
  requests = finished ∷ [];
}

shut-Step : Step shut ended_system
unfolding advance ensure_end
shut-Step = advances shut.shared [] (shaken "chat" false 0) [] (takes_lock 9)

Step-IsShut_example : IsShut ended_system.shared
Step-IsShut_example = Step-IsShut shut-Step (refl, refl)

-- The server forgets the session: the request drops it and starts again, once.
forgotten_again : advance (responded 404) (posting "chat" false (some 0)) two_posting.shared ≡ (
  record two_posting.shared { held = record new_sessions { forgotten = 0 ∷ [] } },
  waiting "chat" true,
)
unfolding advance drop_session session_gone lookup delete
forgotten_again = refl

advance_ends_example :
    let p = posting "chat" false (some 0) in
    let next_of : Choice → Phase = λ c. (advance c p two_posting.shared).1 in
    (steps_left p ≤ 8)
    × ((advance (responded 404) p two_posting.shared ≡ (two_posting.shared, p))
        ⊎ (steps_left (next_of (responded 404)) < steps_left p))
    × ((p ≡ finished) ⊎ ((d : Choice) × (steps_left (next_of d) < steps_left p)))
advance_ends_example =
    advance_ends (responded 404) (posting "chat" false (some 0)) two_posting.shared

-- One refusal of initialize turns the sessions off for every key, one with a live session included.
refused_for_all :
    ensure_begin 11 "chat" (after_handshake 10 (initialize_session (some (429, none))) browser)
    ≡ (record browser { sessionless_until = 1_800_000_000_010 }, without)
unfolding ensure_begin initialize_session
refused_for_all = refl

abbrev token_creds : Map String
token_creds =
    ("oauth_token_url", "https://idp/token")
    ∷ ("oauth_client_id", "forager")
    ∷ ("oauth_client_secret", "s3cret")
    ∷ []

-- An endpoint whose tokens live for one minute.
abbrev minute_tokens : TokenRequest → TokenAnswer
minute_tokens _ = answered 200 (some (record { access_token = "t1"; expires_in = pos 60 }))

abbrev no_cache : TokenCache
no_cache = record { oauth_token = ""; oauth_exp_at = 0 }

abbrev minute_cache : TokenCache
minute_cache = record { oauth_token = "t1"; oauth_exp_at = 1_030_000_000_000 }

first_token :
    get_oauth_token 999_000_000_000 1_000_000_000_000 token_creds minute_tokens no_cache
    ≡ (minute_cache, ok "t1")
unfolding get_oauth_token lookup
first_token = refl

get_oauth_token_example :
    let (kept, got) =
      get_oauth_token 999_000_000_000 1_000_000_000_000 token_creds minute_tokens no_cache in
    let until = kept.oauth_exp_at in
    (got ≡ ok "t1")
    × (get_oauth_token 1_020_000_000_000 0 token_creds minute_tokens kept ≡ (
        if ltb 1_020_000_000_000 until
        then (kept, ok "t1")
        else take_answer 0 (minute_tokens (token_request token_creds)) kept))
    × (until ≤ 1_000_000_000_000 + 60 * second)
    × (1_000_000_000_000 + 60 * second ≤ until + 30 * second)
    × (1_000_000_000_000 + 60 * 500_000_000 ≤ until)
unfolding lookup
get_oauth_token_example =
    get_oauth_token_lem 999_000_000_000 1_000_000_000_000 60 token_creds minute_tokens no_cache "t1"
      refl refl refl refl (omega arith) (omega arith) 1_020_000_000_000 0 minute_tokens

-- A lifetime that passes int64 in nanoseconds wraps around: the token is stale at once.
long_lived_token :
    ltb 99_000_000_000_000_000_000 (expiry 99_000_000_000_000_000_000 (pos 10_000_000_000)) ≡ false
unfolding expiry
long_lived_token = refl

abbrev is_too_long : Bytes → Bool
is_too_long line = leb 65536 (length line)

abbrev two_messages : List Bytes
two_messages = codes "{}" ∷ codes "[]" ∷ []

two_events :
    parse_sse is_too_long (codes "event: message\ndata: {}\r\n\ndata: []\n\n") ≡ ok (codes "{}[]")
unfolding parse_sse bytes_beq
two_events = refl
