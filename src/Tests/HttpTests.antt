-- ===== src/Tests/HttpTests.antt =====
-- pkg/proxy/http/proxy.go: a Prometheus store behind a base URL, and one query.
use Prim.Native.String.{◌++◌ as text_append}
use forager.Prelude.{
  ◌≡◌, refl, true, false, none, some, [], ◌∷◌, ◌<◌, ◌≤◌, ◌==◌, if◌then◌else◌, Map, lookup, insert,
  delete, ok, err, arith, length, leb,
}
use forager.Prelude.Int.{pos, half}
use forager.Prelude.Bytes.{Bytes, bytes_beq, bytes_eq, codes, to_lower}
use forager.Http.{
  Url, ConfigValue, text, int, Client, Proxy, HttpLib, response_too_large, configure,
  max_response_bytes, Redirect, cross_origin, check_redirect,
}
use forager.Http.Headers.{
  Header, inject_auth, copy_header, inject_auth_lem, with_credential, credential, merge, given,
}
use forager.Http.Response.{read_response, read_response_lem}
use forager.Http.Requests.{
  ActionRequest, HttpRequest, HttpResponse, Incoming, Upstream, handle_request, service_map_failed,
}
use forager.Http.Forwarding.{IsForwarded, handle_request-IsForwarded}

abbrev url : Bytes → Bytes → Bytes → Url
url scheme host path = record {
  scheme = scheme;
  user = none;
  host = host;
  hostname = host;
  port = [];
  path = path;
  raw_path = [];
  raw_query = [];
  fragment = [];
}

abbrev lib : HttpLib
lib = record {
  parse_url = λ s.
      if s == codes "http://store/"
      then some (url (codes "http") (codes "store") (codes "/"))
      else some (url [] [] s);
  has_certificates = λ s. true;
  is_key_pair = λ c k. true;
}

abbrev config : Map ConfigValue
config =
    ("base_url", text (codes "http://store/"))
    ∷ ("auth_type", text (codes "bearer"))
    ∷ ("max_response_bytes", int (pos 4))
    ∷ []

abbrev new_proxy : Proxy
new_proxy = record {
  closed = false;
  base_url = [];
  base = none;
  auth_type = [];
  creds = [];
  ds_type = [];
  max_response_bytes = 0;
  client = none;
}

abbrev client : Client
client = record {
  redirects_from = none;
  skip_verify = false;
  server_name = codes "store";
  root_cas = none;
  certificate = none;
}

abbrev store : Proxy
store = record {
  closed = false;
  base_url = codes "http://store/";
  base = some (url (codes "http") (codes "store") (codes "/"));
  auth_type = codes "bearer";
  creds = ("bearer_token", "t") ∷ [];
  ds_type = [];
  max_response_bytes = 4;
  client = some client;
}

configured_store : configure lib config (("bearer_token", "t") ∷ []) new_proxy ≡ ok store
unfolding configure max_response_bytes lookup bytes_beq
configured_store = refl

-- The upstream answers with the path that it was asked for.
abbrev up : Upstream
up = record {
  exchange = λ c r.
      if leb (length r.target.path) 9
      then ok (record { status = 200; header = []; body = some r.target.path })
      else ok (record { status = 200; header = []; body = none });
  accepts = λ m u. true;
  decode = λ s. none;
  canonical = λ s. s;
  basic_auth = text_append;
  service_map = λ p. err service_map_failed;
}

abbrev query : Bytes → ActionRequest
query path = record { action = ""; method = ""; url = path; header = []; body = [] }

abbrev answer : HttpResponse
answer = record { status = 200; header = []; body = codes "/up" }

-- The slash of the base URL is not doubled.
answered_run : handle_request lib up (query (codes "/up")) store ≡ ok answer
unfolding handle_request insert delete lookup bytes_beq
answered_run = refl

other_origin :
    check_redirect
      (record client { redirects_from = store.base })
      0
      (url (codes "https") (codes "store") (codes "/"))
    ≡ Redirect.refused cross_origin
unfolding check_redirect bytes_beq to_lower
other_origin = refl

small_bodies :
    (c : Client) (r : HttpRequest) (raw : Incoming) (body : Bytes)
    → up.exchange c r ≡ ok raw
    → raw.body ≡ some body
    → length body < half
small_bodies c r raw body h b = ground arith

handle_request-IsForwarded_example : IsForwarded lib up store (query (codes "/up")) answer
handle_request-IsForwarded_example =
    handle_request-IsForwarded lib up store (query (codes "/up")) answer (omega arith) small_bodies
      (cc) answered_run

read_response_lem_example :
    (1 ≤ max_response_bytes (some (int (pos 4))))
    × (read_response (max_response_bytes (some (int (pos 4)))) (codes "down") ≡ (
        if leb (length (codes "down")) (max_response_bytes (some (int (pos 4))))
        then ok (codes "down")
        else err response_too_large))
read_response_lem_example =
    read_response_lem (some (int (pos 4))) (codes "down") (omega arith) (omega arith)

abbrev given_header : Header
given_header = ("Authorization", "mine" ∷ []) ∷ ("Accept", "a" ∷ "b" ∷ []) ∷ []

inject_auth_lem_example :
    lookup "Authorization" (
      inject_auth
        (λ s. s)
        text_append
        (codes "bearer")
        (("bearer_token", "t") ∷ [])
        (copy_header (λ s. s) text_append given_header []))
    ≡ with_credential
        (λ s. s)
        text_append
        (credential (λ s. s) text_append (codes "bearer") (("bearer_token", "t") ∷ []))
        "Authorization"
        (merge (λ s. s) text_append none (given (λ s. s) text_append "Authorization" given_header))
inject_auth_lem_example =
    inject_auth_lem (λ s. s) text_append (codes "bearer") (("bearer_token", "t") ∷ []) given_header
      "Authorization"
