-- ===== src/Registry.antt =====
-- pkg/proxy/registry.go: the registry of datasource proxies.
pub mod Consistent
pub mod Closing
pub mod Health
pub mod Reports
pub mod Successes
pub mod Entries
use forager.Prelude.{
  ℕ, ◌+◌, Bool, ◌||◌, not, String, Option, none, some, List, [], ◌∷◌, ltb, nat_eq, if◌then◌else◌,
  Map, lookup, insert, delete, is_some,
}
use forager.Prelude.Bytes.{Bytes}
use forager.Errors.{GoError, Regexps, is_integration_error, redact_error}

-- A proxy object is known by a number: the registry compares and calls proxies, and never looks
-- into them.
abbrev pub Proxy : Type 0
Proxy = ℕ

pub record DatasourceEntry : Type 0 where
  pub id : String
  pub type : String
  pub proxy_type : String
  pub name : String
  pub credential_source : String
  pub credential_ref : String

pub record RequestError : Type 0 where
  pub msg : Bytes
  pub at : ℕ

-- 15 * time.Minute, in nanoseconds
abbrev pub request_error_ttl : ℕ
request_error_ttl = 900_000_000_000

-- `closed` lists the proxies whose `Close` was called, latest first.
pub record Registry : Type 0 where
  pub proxies : Map Proxy
  pub configs : Map DatasourceEntry
  pub last_success : Map ℕ
  pub req_errors : Map RequestError
  pub closed : List Proxy

abbrev pub new_registry : Registry
new_registry = record {
  proxies = [];
  configs = [];
  last_success = [];
  req_errors = [];
  closed = [];
}

unfoldable pub clear_request_error : String → Registry → Registry
clear_request_error id r = record r { req_errors = delete id r.req_errors }

-- `ctx_done` is `ctx.Err() != nil`.
unfoldable pub record_request_result :
    Regexps → Bool → ℕ → String → Option GoError → Registry → Registry
record_request_result re ctx_done now id none r =
    if is_some (lookup id r.proxies) then record r { req_errors = delete id r.req_errors } else r
record_request_result re ctx_done now id (some err) r =
    if ctx_done || not (is_integration_error (some err))
    then r
    else if is_some (lookup id r.proxies)
    then record r {
      req_errors = insert id (record { msg = redact_error re err.text; at = now }) r.req_errors;
    }
    else r

-- A failure that is too old is dropped on the way.
abbrev pub fresh_request_error :
    ℕ → String → Option RequestError → Registry → Registry × Option Bytes
fresh_request_error now id none r = (r, none)
fresh_request_error now id (some e) r =
    if ltb (e.at + request_error_ttl) now
    then (record r { req_errors = delete id r.req_errors }, none)
    else (r, some e.msg)

unfoldable pub recent_request_error : ℕ → String → Registry → Registry × Option Bytes
recent_request_error now id r = fresh_request_error now id (lookup id r.req_errors) r

unfoldable pub get : String → Registry → Option Proxy
get id r = lookup id r.proxies

abbrev pub close_old : Option Proxy → List Proxy → List Proxy
close_old none closed = closed
close_old (some old) closed = old ∷ closed

unfoldable pub register : String → DatasourceEntry → Proxy → Registry → Registry
unfolding clear_request_error
register id entry p r = clear_request_error id (record {
  closed = close_old (lookup id r.proxies) r.closed;
  proxies = insert id p r.proxies;
  configs = insert id entry r.configs;
  last_success = delete id r.last_success;
  req_errors = r.req_errors;
})

abbrev pub remove_proxy :
    (Proxy → Option GoError) → String → Option Proxy → Registry → Registry × Option GoError
remove_proxy close id none r = (r, none)
remove_proxy close id (some p) r = elim (close p) [
  | some err ↦ (record r { closed = p ∷ r.closed }, some err)
  | none ↦ (
    clear_request_error id (record {
      closed = p ∷ r.closed;
      proxies = delete id r.proxies;
      configs = delete id r.configs;
      last_success = delete id r.last_success;
      req_errors = r.req_errors;
    }),
    none,
  )
]

-- `close p` is the error of `p.Close()`.
unfoldable pub remove : (Proxy → Option GoError) → String → Registry → Registry × Option GoError
unfolding clear_request_error
remove close id r = remove_proxy close id (lookup id r.proxies) r

abbrev pub keys {ℓ} : {V : Type ℓ} → Map V → List String
keys [] = []
keys ((k, _) ∷ m) = k ∷ keys m

-- `All`
unfoldable pub all : Registry → List String
all r = keys r.proxies

unfoldable pub list : Registry → Map DatasourceEntry
list r = r.configs

-- The loop of `CloseAll` over the proxies; `lastSuccess` is left as it is.
unfoldable pub close_each : Map Proxy → Registry → Registry
unfolding clear_request_error
close_each [] r = r
close_each ((id, p) ∷ rest) r = close_each rest (
    clear_request_error id (record r {
      closed = p ∷ r.closed;
      proxies = delete id r.proxies;
      configs = delete id r.configs;
    }))

unfoldable pub close_all : Registry → Registry
unfolding close_each
close_all r = close_each r.proxies r
