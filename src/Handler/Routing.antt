-- ===== src/Handler/Routing.antt =====
-- pkg/ws/handler.go: which proxy a request reaches, and what is sent back.
use forager.Prelude.{
  ◌≡◌, ◌≢◌, ◌⊎◌, true, false, ℕ, String, none, some, ◌∷◌, string_eq, if◌then◌else◌, lookup, ok, err,
}
use forager.Errors.{GoError, is_integration_error, redact_error}
use forager.Registry
use forager.Registry.{Proxy, Registry, recent_request_error}
use forager.Handler.{
  ActionRequest, ActionResponse, ErrorCode, Message, Reply, no_code, upstream_unreachable, failed,
  error_reply, response_reply, State, World,
}
use forager.Handler.Requests.{handle_request}

-- A client error that leaves everything as it is.
abbrev pub IsRefused : State → String → State × Reply → Type 0
IsRefused s request_id r =
    (r.0 ≡ s)
    × ((status : ℕ) × (code : ErrorCode) × (m : Message) × (r.1
          ≡ error_reply request_id status code m)
        × ((status ≡ 400) ⊎ (status ≡ 404)))

-- The registry but for the recorded failure of one datasource.
abbrev pub SameBut : String → Registry → Registry → Type 0
SameBut j r r' =
    (r'.proxies ≡ r.proxies)
    × (r'.configs ≡ r.configs)
    × (r'.last_success ≡ r.last_success)
    × (r'.closed ≡ r.closed)
    × ((k : String) → k ≢ j → lookup k r'.req_errors ≡ lookup k r.req_errors)

-- One call of the proxy of a registered datasource, and what became of its result.
pub record IsServed (w : World) (s : State) (id request_id : String) (r : State × Reply)
    : Type 0 where
  pub target : String
  pub proxy : Proxy
  pub request : ActionRequest
  pub registered : Registry.get target s.registry ≡ some proxy
  pub named : id ≢ "" → target ≡ id
  pub called : r.0.calls ≡ (proxy, request) ∷ s.calls
  pub others : SameBut target s.registry r.0.registry
  pub failure_shown :
      (e : GoError)
      → id ≢ ""
      → w.handle_request proxy request ≡ err e
      → w.ctx_done ≡ false
      → is_integration_error (some e) ≡ true
      → (recent_request_error w.now id r.0.registry).1 ≡ some (redact_error w.regexps e.text)
  pub success_clears :
      (resp : ActionResponse)
      → id ≢ ""
      → w.handle_request proxy request ≡ ok resp
      → (recent_request_error w.now id r.0.registry).1 ≡ none
  pub answered :
      (resp : ActionResponse)
      → w.handle_request proxy request ≡ ok resp
      → r.1 ≡ response_reply (record resp { request_id = request_id })
  pub not_answered :
      (e : GoError)
      → w.handle_request proxy request ≡ err e
      → r.1
        ≡ error_reply request_id 500
            (if e.is_unreachable then upstream_unreachable else no_code)
            (failed e)

module _ (w : World) where
  module _ (request_id : String) (s : State) where
    abbrev pub Settled : String → State × Reply → Type 0
    Settled id r = IsRefused s request_id r ⊎ IsServed w s id request_id r
