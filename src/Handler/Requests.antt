-- ===== src/Handler/Requests.antt =====
-- pkg/ws/handler.go: `handleRequest` and `handleLegacyRequest`.
use forager.Prelude.{
  String, Option, none, some, List, [], ◌∷◌, ◌==◌, string_eq, if◌then◌else◌, lookup, Result, ok,
  err,
}
use forager.Errors.{GoError}
use forager.Registry
use forager.Registry.{Proxy, record_request_result}
use forager.Values.{Value, str}
use forager.Handler.{
  ActionRequest, ActionResponse, LegacyRequest, HttpRequest, no_code, datasource_not_found,
  ambiguous_datasource, missing_datasource_id, no_http_proxy, id_required, unrecognized,
  invalid_request, not_found, Reply, error_reply, response_reply, State, World,
  build_proxy_error_response,
}

-- `p.HandleRequest`, as an event.
abbrev pub call : Proxy → ActionRequest → State → State
call p req s = record s { calls = (p, req) ∷ s.calls }

abbrev pub answer : String → Result GoError ActionResponse → Reply
answer request_id (ok resp) = response_reply (record resp { request_id = request_id })
answer request_id (err e) = build_proxy_error_response request_id e

abbrev pub error_of : {A : Type 0} → Result GoError A → Option GoError
error_of (ok _) = none
error_of (err e) = some e

module _ (w : World) where
  -- The call, `RecordRequestResult`, and the reply.
  unfoldable pub serve : Proxy → String → String → ActionRequest → State → State × Reply
  serve p datasource_id request_id req s =
      let result = w.handle_request p req in
      let s' = call p req s in
      (
        record s' {
          registry =
              record_request_result w.regexps w.ctx_done w.now datasource_id (error_of result)
                s'.registry;
        },
        answer request_id result,
      )

  abbrev pub unknown_datasource : String → String → Reply
  unknown_datasource request_id id = error_reply request_id 404 datasource_not_found (not_found id)

  -- action_params are decoded like a request, and then these fields are set.
  abbrev pub legacy_action : LegacyRequest → String → ActionRequest
  legacy_action l datasource_id =
      let req = w.request_of_params l.action_params in
      record req {
        request_id = l.request_id;
        action = l.action_name;
        datasource_id = datasource_id;
        params = l.action_params;
      }

  abbrev pub string_param : Option Value → String
  string_param (some (str v)) = v
  string_param _ = ""

  abbrev pub serve_legacy_at :
      Option Proxy → LegacyRequest → String → String → State → State × Reply
  serve_legacy_at none l id request_id s = (s, unknown_datasource request_id id)
  serve_legacy_at (some p) l id request_id s = serve p id request_id (legacy_action l id) s

  abbrev pub serve_legacy : LegacyRequest → String → State → State × Reply
  serve_legacy l request_id s =
      let id = string_param (lookup "datasource_id" l.action_params) in
      if id == ""
      then (s, error_reply request_id 400 no_code missing_datasource_id)
      else serve_legacy_at (Registry.get id s.registry) l id request_id s

  abbrev pub of_type : String → Option Proxy → List Proxy → List Proxy
  of_type type none ps = ps
  of_type type (some p) ps = if w.type_of p == type then p ∷ ps else ps

  abbrev pub http_proxies : List String → State → List Proxy
  http_proxies [] s = []
  http_proxies (id ∷ ids) s = of_type "http-proxy" (Registry.get id s.registry) (http_proxies ids s)

  abbrev pub plain_request : HttpRequest → ActionRequest
  plain_request h = record {
    request_id = "";
    datasource_id = "";
    action = "";
    params = [];
    method = h.method;
    url = h.url;
    header = h.header;
    body = h.body;
  }

  -- Served only when there is exactly one; the result is not recorded.
  abbrev pub serve_http : List Proxy → HttpRequest → String → State → State × Reply
  serve_http [] h request_id s = (s, error_reply request_id 404 datasource_not_found no_http_proxy)
  serve_http (p ∷ []) h request_id s =
      (call p (plain_request h) s, answer request_id (w.handle_request p (plain_request h)))
  serve_http (p ∷ q ∷ ps) h request_id s =
      (s, error_reply request_id 400 ambiguous_datasource id_required)

  abbrev pub try_http : Option HttpRequest → String → State → State × Reply
  try_http none request_id s = (s, error_reply request_id 400 no_code unrecognized)
  try_http (some h) request_id s =
      if h.url == ""
      then (s, error_reply request_id 400 no_code unrecognized)
      else serve_http (http_proxies (Registry.all s.registry) s) h request_id s

  abbrev pub try_legacy : Option LegacyRequest → String → String → State → State × Reply
  try_legacy none msg request_id s = try_http (w.unmarshal_http msg) request_id s
  try_legacy (some l) msg request_id s =
      if l.action_name == ""
      then try_http (w.unmarshal_http msg) request_id s
      else serve_legacy l request_id s

  unfoldable pub handle_legacy_request : String → String → State → State × Reply
  handle_legacy_request msg request_id s = try_legacy (w.unmarshal_legacy msg) msg request_id s

  abbrev pub serve_at : Option Proxy → String → String → String → State → State × Reply
  serve_at none msg request_id id s = (s, unknown_datasource request_id id)
  serve_at (some p) msg request_id id s = elim (w.unmarshal_request msg) [
    | err text ↦ (s, error_reply request_id 400 no_code (invalid_request text))
    | ok req ↦ serve p id request_id req s
  ]

  unfoldable pub handle_request : String → String → String → State → State × Reply
  handle_request msg request_id datasource_id s =
      if datasource_id == ""
      then handle_legacy_request msg request_id s
      else serve_at (Registry.get datasource_id s.registry) msg request_id datasource_id s
