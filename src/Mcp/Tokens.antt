-- ===== src/Mcp/Tokens.antt =====
-- pkg/proxy/mcp/proxy.go: the cached OAuth 2.0 token (getOAuthToken).
use forager.Prelude.{
  ℕ, ◌+◌, ◌-◌, ◌*◌, ◌/◌, ◌%◌, ◌^◌, ◌<◌, ◌≤◌, ◌≡◌, Bool, false, not, ◌&&◌, ◌||◌, String, Option,
  none, some, [], ltb, ◌==◌, string_eq, nat_eq, if◌then◌else◌, Map, insert, Result, ok, err, arith,
}
use forager.Prelude.Int.{ℤ, pos, negsuc, half}
use forager.Http.{cred}

-- The token that is kept, and the instant from which it is not used, in nanoseconds from the year 1.
pub record TokenCache : Type 0 where
  pub oauth_token : String
  pub oauth_exp_at : ℕ

pub record TokenRequest : Type 0 where
  pub token_url : String
  pub client_id : String
  pub client_secret : String
  pub form : Map String

pub record TokenResponse : Type 0 where
  pub access_token : String
  pub expires_in : ℤ

-- What comes of a request: it cannot be built, it has no answer, or it has a status and a body, which
-- is `none` where it is not the expected JSON.
pub data TokenAnswer : Type 0 where
  unbuilt unanswered : TokenAnswer
  answered : (status : ℕ) → Option TokenResponse → TokenAnswer

pub data TokenError : Type 0 where
  incomplete bad_request no_answer undecodable no_token : TokenError
  bad_status : ℕ → TokenError

abbrev pub set_unless_empty : String → String → Map String → Map String
set_unless_empty key value form = if value == "" then form else insert key value form

-- The grant that is asked for.
unfoldable pub token_request : Map String → TokenRequest
unfolding insert
token_request creds = record {
  token_url = cred "oauth_token_url" creds;
  client_id = cred "oauth_client_id" creds;
  client_secret = cred "oauth_client_secret" creds;
  form = set_unless_empty "audience" (cred "oauth_audience" creds) (
      set_unless_empty "scope" (cred "oauth_scope" creds)
        (insert "grant_type" "client_credentials" []));
}

abbrev pub lacks_credential : Map String → Bool
lacks_credential creds =
    cred "oauth_token_url" creds == ""
    || cred "oauth_client_id" creds == ""
    || cred "oauth_client_secret" creds == ""

abbrev pub second : ℕ
second = 1_000_000_000

-- An int64 from its 64 bits.
abbrev pub int64 : ℕ → ℤ
int64 word = if ltb word half then pos word else negsuc (2 ^ 64 - 1 - word)

-- `lifetime - buffer`: the buffer is 30 seconds, but at most half the lifetime, rounded to zero. Of a
-- negative lifetime it is the half.
abbrev pub without_buffer : ℤ → ℤ
without_buffer (pos lifetime) =
    pos (lifetime - (if ltb (lifetime / 2) (30 * second) then lifetime / 2 else 30 * second))
without_buffer (negsuc n) = negsuc (n - (n + 1) / 2)

-- now.Add(d)
abbrev pub add_duration : ℕ → ℤ → ℕ
add_duration now (pos d) = now + d
add_duration now (negsuc d) = now - (d + 1)

-- `time.Duration(n) * time.Second` wraps around in int64.
unfoldable pub expiry : ℕ → ℤ → ℕ
expiry now (pos n) =
    if ltb 0 n
    then add_duration now (without_buffer (int64 (n * second % 2 ^ 64)))
    else now + 300 * second
expiry now (negsuc n) = now + 300 * second

abbrev pub keep_token :
    ℕ → Option TokenResponse → TokenCache → TokenCache × Result TokenError String
keep_token later none cache = (cache, err undecodable)
keep_token later (some r) cache = if r.access_token == "" then (cache, err no_token) else (
  record { oauth_token = r.access_token; oauth_exp_at = expiry later r.expires_in },
  ok r.access_token,
)

abbrev pub take_answer : ℕ → TokenAnswer → TokenCache → TokenCache × Result TokenError String
take_answer later unbuilt cache = (cache, err bad_request)
take_answer later unanswered cache = (cache, err no_answer)
take_answer later (answered status body) cache =
    if status == 200 then keep_token later body cache else (cache, err (bad_status status))

-- time.Now().Before(p.oauthExpAt), for a token that is not empty
abbrev pub is_fresh : ℕ → TokenCache → Bool
is_fresh now cache = not (cache.oauth_token == "") && ltb now cache.oauth_exp_at

-- `ask` is the exchange with the token endpoint, which ends at `later`.
unfoldable pub get_oauth_token :
    (now later : ℕ)
    → Map String
    → (TokenRequest → TokenAnswer)
    → TokenCache
    → TokenCache × Result TokenError String
unfolding token_request expiry
get_oauth_token now later creds ask cache =
    if is_fresh now cache
    then (cache, ok cache.oauth_token)
    else if lacks_credential creds
    then (cache, err incomplete)
    else take_answer later (ask (token_request creds)) cache

module _ (later n : ℕ) (positive : 0 < n) (small : n * second < half) where
  -- The lifetime of the server is not passed, and at most 30 seconds and half of it are given up.
  expiry-bounds :
      (expiry later (pos n) ≤ later + n * second)
      × (later + n * second ≤ expiry later (pos n) + 30 * second)
      × (later + n * 500_000_000 ≤ expiry later (pos n))
  unfolding expiry
  expiry-bounds = ground arith

-- A request for a new token that the endpoint answers with one that lives `n` seconds.
module _ (now later n : ℕ) (creds : Map String) (ask : TokenRequest → TokenAnswer)
    (cache : TokenCache) (token : String) where
  -- With complete credentials and no usable token in the cache, a token that is not empty, with a
  -- lifetime of `n` seconds, which is positive and fits into a duration, is returned and kept. A later call returns it without asking the
  -- endpoint until an instant that is not behind the end of its life, at most 30 seconds before that
  -- and not in the first half of its life; from then on it asks anew.
  pub get_oauth_token_lem :
      is_fresh now cache ≡ false
      → lacks_credential creds ≡ false
      → ask (token_request creds)
        ≡ answered 200 (some (record { access_token = token; expires_in = pos n }))
      → token == "" ≡ false
      → 0 < n
      → n * second < half
      → (now' later' : ℕ) (ask' : TokenRequest → TokenAnswer)
      → let (kept, got) = get_oauth_token now later creds ask cache in
        let until = kept.oauth_exp_at in
        (got ≡ ok token)
        × (get_oauth_token now' later' creds ask' kept ≡ (
            if ltb now' until
            then (kept, ok token)
            else take_answer later' (ask' (token_request creds)) kept))
        × (until ≤ later + n * second)
        × (later + n * second ≤ until + 30 * second)
        × (later + n * 500_000_000 ≤ until)
  unfolding get_oauth_token
  get_oauth_token_lem stale complete answer some_token positive small now' later' ask' =
      let bounds = expiry-bounds later n positive small in ground (arith, bounds)
