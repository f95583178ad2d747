-- ===== src/Http/Requests.antt =====
-- pkg/proxy/http/proxy.go: HandleRequest and HealthCheck. `client.Do`, base64 and the action of
-- vmservicemap.go are parameters.
use forager.Prelude.{
  ℕ, Bool, not, ◌&&◌, String, Option, none, some, List, [], ◌∷◌, ltb, leb, ◌==◌, nat_eq, string_eq,
  if◌then◌else◌, Result, ok, err,
}
use forager.Prelude.Bytes.{Bytes, bytes_eq, codes}
use forager.Http.{Url, Client, Proxy, HttpLib, HttpError}
use forager.Http.Target.{resolve_target_url}
use forager.Http.Headers.{Header, copy_header, inject_auth}
use forager.Http.Response.{read_response, DoError, is_network_error}

pub record ActionRequest : Type 0 where
  pub action : String
  pub method : String
  pub url : Bytes
  pub header : Header
  pub body : Bytes

-- The `*http.Request`; `none` is no body.
pub record HttpRequest : Type 0 where
  pub method : String
  pub target : Url
  pub header : Header
  pub body : Option Bytes

pub record HttpResponse : Type 0 where
  pub status : ℕ
  pub header : Header
  pub body : Bytes

pub data Failure : Type 0 where
  closed not_configured bad_request service_map_failed : Failure
  of_proxy : HttpError → Failure
  upstream_unreachable : DoError → Failure
  do_failed : DoError → Failure
  read_failed : Failure
  unhealthy : ℕ → Failure

-- A response whose body is read: `none` where reading it fails.
pub record Incoming : Type 0 where
  pub status : ℕ
  pub header : Header
  pub body : Option Bytes

-- `exchange` is `client.Do` with the reading of the body; `accepts` tells whether
-- NewRequestWithContext takes a method and a target.
pub record Upstream : Type 0 where
  pub exchange : Client → HttpRequest → Result DoError Incoming
  pub accepts : String → Url → Bool
  pub decode : Bytes → Option Bytes
  pub canonical : String → String
  pub basic_auth : String → String → String
  pub service_map : Proxy → Result Failure HttpResponse

abbrev pub body_of : Upstream → Bytes → Option Bytes
body_of up body =
    if body == []
    then none
    else elim (up.decode body) [ some decoded ↦ some decoded | none ↦ some body ]

abbrev pub request_to : Upstream → Proxy → ActionRequest → Url → HttpRequest
request_to up p req target = record {
  method = if req.method == "" then "GET" else req.method;
  target = target;
  header =
      inject_auth up.canonical up.basic_auth p.auth_type p.creds
        (copy_header up.canonical up.basic_auth req.header []);
  body = body_of up req.body;
}

abbrev pub capped : ℕ → HttpResponse → Result Failure HttpResponse
capped cap resp = elim (read_response cap resp.body) [
  | err e ↦ err (of_proxy e)
  | ok body ↦ ok (record resp { body = body })
]

abbrev pub answered : ℕ → Result DoError Incoming → Result Failure HttpResponse
answered cap (err e) = err (if is_network_error e then upstream_unreachable e else do_failed e)
answered cap (ok raw) = elim raw.body [
  | none ↦ err read_failed
  | some body ↦ capped cap (record { status = raw.status; header = raw.header; body = body })
]

abbrev pub forward : Upstream → Client → Proxy → HttpRequest → Result Failure HttpResponse
forward up client p req =
    if up.accepts req.method req.target
    then answered p.max_response_bytes (up.exchange client req)
    else err bad_request

abbrev pub forward_to :
    Upstream → Client → Proxy → ActionRequest → Result HttpError Url → Result Failure HttpResponse
forward_to up client p req (err e) = err (of_proxy e)
forward_to up client p req (ok target) = forward up client p (request_to up p req target)

abbrev pub handle_with :
    HttpLib
    → Upstream
    → Option Client
    → Option Url
    → Proxy
    → ActionRequest
    → Result Failure HttpResponse
handle_with lib up none base p req = err not_configured
handle_with lib up (some client) none p req = err not_configured
handle_with lib up (some client) (some base) p req =
    if req.action == "vm_service_map"
    then up.service_map p
    else forward_to up client p req (resolve_target_url lib (some base) req.url)

unfoldable pub handle_request :
    HttpLib → Upstream → ActionRequest → Proxy → Result Failure HttpResponse
unfolding resolve_target_url inject_auth copy_header read_response is_network_error
handle_request lib up req p =
    if p.closed then err closed else handle_with lib up p.client p.base p req

abbrev pub get_request : Upstream → Proxy → Url → HttpRequest
get_request up p target = record {
  method = "GET";
  target = target;
  header = inject_auth up.canonical up.basic_auth p.auth_type p.creds [];
  body = none;
}

-- The loop over the paths of `prometheusHealthCheck`, with the last failure.
unfoldable pub check_paths :
    HttpLib → Upstream → Client → Proxy → Option Failure → List Bytes → Option Failure
check_paths lib up client p last [] = last
check_paths lib up client p last (path ∷ paths) = elim (resolve_target_url lib p.base path) [
  | err e ↦ some (of_proxy e)
  | ok target ↦
      if not (up.accepts "GET" target)
      then some bad_request
      else elim (up.exchange client (get_request up p target)) [
        | err e ↦ some (do_failed e)
        | ok resp ↦
            if leb 200 resp.status && ltb resp.status 300
            then none
            else check_paths lib up client p (some (unhealthy resp.status)) paths
      ]
]

abbrev pub plain_health_check : Upstream → Client → Proxy → Url → Option Failure
plain_health_check up client p base =
    if not (up.accepts "GET" base)
    then some bad_request
    else elim (up.exchange client (get_request up p base)) [
      | err e ↦ some (do_failed e)
      | ok resp ↦ if leb 500 resp.status then some (unhealthy resp.status) else none
    ]

abbrev pub check_with : HttpLib → Upstream → Option Client → Option Url → Proxy → Option Failure
check_with lib up none base p = some not_configured
check_with lib up (some client) none p = some not_configured
check_with lib up (some client) (some base) p =
    if p.ds_type == codes "prometheus"
    then check_paths lib up client p none (codes "/-/ready" ∷ codes "/api/v1/status/buildinfo" ∷ [])
    else plain_health_check up client p base

-- A proxy has a base URL exactly if it has a text for it that is not empty.
unfoldable pub health_check : HttpLib → Upstream → Proxy → Option Failure
unfolding check_paths
health_check lib up p = if p.closed then some closed else check_with lib up p.client p.base p
