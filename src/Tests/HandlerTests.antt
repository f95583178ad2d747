-- ===== src/Tests/HandlerTests.antt =====
-- pkg/ws/handler.go: messages to one registered http proxy.
use text.Mathlib.Text.{starts_with}
use forager.Prelude.{
  ◌≡◌, ◌≢◌, ◌⊎◌, ap, refl, true, false, String, none, some, [], ◌∷◌, arith, eq_iff, ◌==◌, string_eq,
  if◌then◌else◌, lookup, insert, ok, is_some, Listed,
}
use forager.Registry
use forager.Registry.{Proxy, Registry, record_request_result}
use forager.Secrets.{StoreCodecs}
use forager.Signing.Nonces.{Readings, check_and_record_nonce}
use forager.Signing.Verifier.{
  Codecs, SignatureEnvelope, Verifier, missing_signature, authenticate, verify,
  verify_payload_matches_message, match_fields,
}
use forager.Signing.Binding.{IsAuthenticMessage}
use forager.Signing.Window.{is_outside_window}
use forager.Handler.{
  ActionRequest, ActionResponse, Envelope, HttpRequest, Datasource, error_reply, no_code,
  datasource_not_found, ambiguous_datasource, signature_failed, no_http_proxy, id_required, State,
  World,
}
use forager.Handler.Requests.{plain_request, handle_request, serve}
use forager.Handler.Sync.{sync_all, apply_push}
use forager.Handler.Dispatch.{handle_message, route, effective_action, is_signed}
use forager.Handler.Authority.{refused_message, acted-IsAuthentic}
use forager.Handler.HttpProxies.{IsHttp}
use forager.Handler.PlainHttp.{IsNoAction, plain_http_lem}
use forager.Handler.Stale.{apply_push_lem}
use forager.Handler.Pushed.{Pushed, ids_of}

abbrev at : Readings
at = record { checked = 1_000; recorded = 1_000; cut = 1_000 }

-- An envelope with every text, and one with no signature.
abbrev sealed : String → SignatureEnvelope
sealed sig = record {
  signed_payload = "payload";
  signature = sig;
  signed_at = "now";
  nonce = "n1";
  key_id = "";
}

abbrev signing : Codecs
signing = record {
  unmarshal_envelope = λ m. if m == "good" then some (sealed "s") else some (sealed "");
  unmarshal_fields = λ t. some [];
  canonical_json = λ t. some t;
  parse_rfc3339 = λ t. some 1_000;
  decode_base64 = λ t. some t;
  ed25519_verify = λ k m s. true;
}

abbrev request : ActionRequest
request = record {
  request_id = "r1";
  datasource_id = "web";
  action = "http_request";
  params = [];
  method = "GET";
  url = "/";
  header = [];
  body = "";
}

abbrev response : ActionResponse
response = record { status_code = 200; request_id = ""; payload = "hello" }

abbrev plain : HttpRequest
plain = record { method = "GET"; url = "/"; header = []; body = "" }

abbrev envelope : Envelope
envelope = record {
  action = "http_request";
  request_id = "r1";
  datasource_id = "web";
  body_action_name = "";
}

abbrev codecs : StoreCodecs
codecs = record {
  derive_key = λ s. s;
  marshal = λ m. "";
  unmarshal = λ t. some [];
  seal = λ key nonce text. text;
  open_sealed = λ key file. some file;
}

abbrev world : World
world = record {
  unmarshal_envelope = λ m. some envelope;
  unmarshal_request = λ m. ok request;
  unmarshal_legacy = λ m. none;
  request_of_params = λ m. request;
  unmarshal_http = λ m. some plain;
  unmarshal_push = λ m. some [];
  unmarshal_test = λ m. none;
  signing = signing;
  regexps = record { to_valid_utf8 = λ s. s; replace_all = λ p s. s };
  codecs = codecs;
  readings = at;
  now = 1_000;
  ctx_done = false;
  write_err = λ id. none;
  file_nonce = λ id. "";
  get_secret = λ source ref. ok [];
  new_proxy = λ id type. 7;
  type_of = λ p. "http-proxy";
  configure = λ p config creds. none;
  handle_request = λ p req. ok response;
  close = λ p. none;
}

abbrev verifier : Verifier
verifier = record { public_key = "key"; enabled = true; seen_nonces = [] }

abbrev datasource : Datasource
datasource = record {
  id = "web";
  type = "http";
  proxy_type = "http-proxy";
  name = "web";
  config = [];
  credentials = [];
  credential_source = "local";
  credential_ref = "";
  allowed_hosts = [];
}

abbrev start : State
start = record {
  registry = Registry.new_registry;
  verifier = some verifier;
  store = record { creds = []; file = none; key = "" };
  secrets = record { providers = []; cache = []; cache_ttl = 0 };
  calls = [];
  synced = 0;
}

refused_message_example :
    handle_message world "bad" start ≡ (start, some (error_reply "r1" 403 no_code signature_failed))
unfolding verify authenticate
refused_message_example =
    refused_message world "bad" start verifier refl refl envelope missing_signature refl refl

abbrev stateful : State
stateful = record start { registry = record Registry.new_registry { proxies = ("web", 7) ∷ [] } }

good_acts : (handle_message world "good" stateful).0 ≢ stateful
unfolding handle_message effective_action is_signed verify authenticate route handle_request
    verify_payload_matches_message match_fields is_outside_window check_and_record_nonce lookup
    insert Registry.get serve record_request_result
good_acts e = cc (ap (λ (s : State). s.calls) e)

acted-IsAuthentic_example : IsAuthenticMessage signing at verifier "good"
acted-IsAuthentic_example = acted-IsAuthentic world "good" stateful verifier refl refl good_acts

slash_not_empty : ◌≢◌ {A = String} "/" ""
slash_not_empty = ground (arith, eq_iff "/" "")

no_legacy_action : IsNoAction world "good"
no_legacy_action l h = ground arith

abbrev PlainHttp : State → Type 0
PlainHttp s =
    (((j : String) (p : Proxy) → IsHttp world s j p → ⊥)
      → handle_request world "good" "r1" "" s
        ≡ (s, error_reply "r1" 404 datasource_not_found no_http_proxy))
    × ((j : String) (p : Proxy)
        → IsHttp world s j p
        → ((k : String) (q : Proxy) → IsHttp world s k q → k ≡ j)
        → (handle_request world "good" "r1" "" s).0.calls
          ≡ (p, plain_request world plain) ∷ s.calls)
    × ((j k : String) (p q : Proxy)
        → IsHttp world s j p
        → IsHttp world s k q
        → j ≢ k
        → handle_request world "good" "r1" "" s
          ≡ (s, error_reply "r1" 400 ambiguous_datasource id_required))

plain_http_lem_example : PlainHttp stateful
unfolding lookup
plain_http_lem_example =
    plain_http_lem world "good" "r1" stateful plain no_legacy_action refl slash_not_empty (refl, tt)

abbrev AfterPush : String → State → Type 0
AfterPush j s =
    ((p : Proxy)
      → Registry.get j (apply_push world (datasource ∷ []) s).registry ≡ some p
      → Pushed world j (datasource ∷ [])
        ⊎ ((starts_with j "local:" ≡ true) ⊎ (world.close p ≢ none)))
    × (Listed j (ids_of (datasource ∷ []))
        → (Registry.get j (apply_push world (datasource ∷ []) s).registry
            ≡ Registry.get j (sync_all world (datasource ∷ []) [] s).0.registry)
          × (is_some (Registry.get j s.registry) ≡ true
              → is_some (Registry.get j (apply_push world (datasource ∷ []) s).registry) ≡ true))
    × (starts_with j "local:" ≡ true
        → is_some (Registry.get j s.registry) ≡ true
        → is_some (Registry.get j (apply_push world (datasource ∷ []) s).registry) ≡ true)

apply_push_lem_example : AfterPush "web" stateful
apply_push_lem_example = apply_push_lem world (datasource ∷ []) "web" stateful
