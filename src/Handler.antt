-- ===== src/Handler.antt =====
-- pkg/ws/handler.go: the state of the handler, the interfaces that it calls, and its replies. The
-- handlers themselves are in Requests and Sync, and `HandleMessage` in Dispatch.
pub mod Requests
pub mod Sync
pub mod Dispatch
pub mod Authority
pub mod Stale
pub mod Routing
pub mod Pushed
pub mod HttpProxies
pub mod PlainHttp
use forager.Prelude.{ℕ, Bool, true, false, String, Option, none, some, List, [], ◌∷◌, Map, Result}
use forager.Prelude.Bytes.{Bytes}
use forager.Errors.{GoError, Regexps}
use forager.Registry.{Proxy, Registry}
use forager.Secrets.{Creds, Manager, CloudPushStore, StoreCodecs}
use forager.Signing.Nonces.{Readings}
use forager.Signing.Verifier.{Codecs, Verifier}
use forager.Values.{Value}

pub record ActionRequest : Type 0 where
  pub request_id : String
  pub datasource_id : String
  pub action : String
  pub params : Map Value
  pub method : String
  pub url : String
  pub header : Map (List String)
  pub body : String

pub record ActionResponse : Type 0 where
  pub status_code : ℕ
  pub request_id : String
  pub payload : String

pub record Envelope : Type 0 where
  pub action : String
  pub request_id : String
  pub datasource_id : String
  pub body_action_name : String

pub record LegacyRequest : Type 0 where
  pub action_name : String
  pub action_params : Map Value
  pub request_id : String

pub record HttpRequest : Type 0 where
  pub method : String
  pub url : String
  pub header : Map (List String)
  pub body : String

-- An element of `datasources` in a config push; a missing `config` is the empty map.
pub record Datasource : Type 0 where
  pub id : String
  pub type : String
  pub proxy_type : String
  pub name : String
  pub config : Map Value
  pub credentials : Creds
  pub credential_source : String
  pub credential_ref : String
  pub allowed_hosts : List String

pub data ErrorCode : Type 0 where
  no_code datasource_not_found upstream_unreachable ambiguous_datasource : ErrorCode

pub data Message : Type 0 where
  signature_failed missing_datasource_id no_http_proxy id_required unrecognized : Message
  invalid_request : Bytes → Message
  not_found : String → Message
  failed : GoError → Message

-- What is sent back, before it is marshalled.
pub data Reply : Type 0 where
  error_reply : String → ℕ → ErrorCode → Message → Reply
  response_reply : ActionResponse → Reply
  sync_ack : String → Reply
  test_result : String → Bool → Reply

-- `calls` lists the requests that proxies were given, latest first; `synced` counts the callbacks
-- after a config push.
pub record State : Type 0 where
  pub registry : Registry
  pub verifier : Option Verifier
  pub store : CloudPushStore
  pub secrets : Manager
  pub calls : List (Proxy × ActionRequest)
  pub synced : ℕ

-- What one message meets: encoding/json, the verifier's and the store's codecs, the clock, the disk,
-- and the proxy modules behind the interface `proxy.Proxy`.
pub record World : Type 0 where
  pub unmarshal_envelope : String → Option Envelope
  pub unmarshal_request : String → Result Bytes ActionRequest
  pub unmarshal_legacy : String → Option LegacyRequest
  pub request_of_params : Map Value → ActionRequest
  pub unmarshal_http : String → Option HttpRequest
  pub unmarshal_push : String → Option (List Datasource)
  pub unmarshal_test : String → Option Datasource
  pub signing : Codecs
  pub regexps : Regexps
  pub codecs : StoreCodecs
  pub readings : Readings
  pub now : ℕ
  pub ctx_done : Bool
  pub write_err : String → Option GoError
  pub file_nonce : String → String
  pub get_secret : String → String → Result GoError Creds
  -- the proxy that `New` of a module gives for a datasource and its module
  pub new_proxy : String → String → Proxy
  pub type_of : Proxy → String
  pub configure : Proxy → Map Value → Creds → Option GoError
  pub handle_request : Proxy → ActionRequest → Result GoError ActionResponse
  pub close : Proxy → Option GoError

-- `buildProxyErrorResponse`
unfoldable pub build_proxy_error_response : String → GoError → Reply
build_proxy_error_response request_id err =
    error_reply request_id 500 (code err.is_unreachable) (failed err)
  where
    code : Bool → ErrorCode
    code true = upstream_unreachable
    code false = no_code
