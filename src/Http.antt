-- ===== src/Http.antt =====
-- pkg/proxy/http/proxy.go: the HTTP proxy, its configuration, the target of a request, the policy on
-- redirects, the injection of credentials and the cap on a response.
pub mod Target
pub mod Headers
pub mod Response
pub mod Requests
pub mod Forwarding
use forager.Prelude.{
  ℕ, ◌+◌, ◌-◌, Bool, true, false, not, ◌&&◌, ◌||◌, String, List, [], ◌∷◌, ◌++◌, Option, none, some,
  ltb, leb, ◌==◌, nat_eq, string_eq, if◌then◌else◌, Map, lookup, insert, length, Result, ok, err,
  ◌>>=◌, ◌>>◌,
}
use forager.Prelude.Int.{ℤ, pos, negsuc, half}
use forager.Prelude.Bytes.{Bytes, bytes_eq, codes, has_prefix, to_lower}

-- url.URL: `host` has the port, and `raw_path` is the escaped form of the path where the default one
-- differs from it. `hostname` and `port` are what the methods of these names give.
pub record Url : Type 0 where
  pub scheme : Bytes
  pub user : Option Bytes
  pub host : Bytes
  pub hostname : Bytes
  pub port : Bytes
  pub path : Bytes
  pub raw_path : Bytes
  pub raw_query : Bytes
  pub fragment : Bytes

-- A value of the configuration. Of a float64 the code reads whether it reaches 2^63, whether it
-- reaches 1, and its conversion to int64. `int` is an int or an int64.
pub data ConfigValue : Type 0 where
  text : Bytes → ConfigValue
  bool : Bool → ConfigValue
  int : ℤ → ConfigValue
  float : (reaches_max reaches_one : Bool) (truncated : ℕ) → ConfigValue
  other : ConfigValue

-- net/url and crypto/tls with crypto/x509.
pub record HttpLib : Type 0 where
  pub parse_url : Bytes → Option Url
  pub has_certificates : String → Bool
  pub is_key_pair : String → String → Bool

-- The `*http.Client` of a configuration: how it treats redirects and certificates.
pub record Client : Type 0 where
  pub redirects_from : Option Url
  pub skip_verify : Bool
  pub server_name : Bytes
  pub root_cas : Option String
  pub certificate : Option (String × String)

pub record Proxy : Type 0 where
  pub closed : Bool
  pub base_url : Bytes
  pub base : Option Url
  pub auth_type : Bytes
  pub creds : Map String
  pub ds_type : Bytes
  pub max_response_bytes : ℕ
  pub client : Option Client

pub data HttpError : Type 0 where
  base_url_required invalid_base_url bad_scheme no_host : HttpError
  bad_ca_cert cert_without_key bad_key_pair proxy_closed : HttpError
  not_configured invalid_url not_relative response_too_large : HttpError
  too_many_redirects cross_origin : HttpError

abbrev pub text_of : Option ConfigValue → Bytes
text_of (some (text s)) = s
text_of _ = []

abbrev pub flag_of : Option ConfigValue → Bool
flag_of (some (bool b)) = b
flag_of _ = false

-- 256 << 20
abbrev pub default_max_response_bytes : ℕ
default_max_response_bytes = 268_435_456

unfoldable pub max_response_bytes : Option ConfigValue → ℕ
max_response_bytes (some (int (pos n))) = if ltb 0 n then n else default_max_response_bytes
max_response_bytes (some (float reaches_max reaches_one n)) =
    if reaches_max then half - 1 else if reaches_one then n else default_max_response_bytes
max_response_bytes _ = default_max_response_bytes

abbrev pub cred : String → Map String → String
cred key creds = elim (lookup key creds) [ some v ↦ v | none ↦ "" ]

abbrev pub fail_if : Bool → HttpError → Result HttpError (Unit {0})
fail_if true e = err e
fail_if false e = ok tt

-- `applyTLSMaterial`: the authorities and the certificate of the client.
unfoldable pub apply_tls_material :
    HttpLib → Map String → Result HttpError (Option String × Option (String × String))
apply_tls_material lib creds =
    let ca = cred "ca_cert" creds in
    let cert = cred "client_cert" creds in
    let key = cred "client_key" creds in
    if not (ca == "") && not (lib.has_certificates ca)
    then err bad_ca_cert
    else if not (cert == "") && key == "" || cert == "" && not (key == "")
    then err cert_without_key
    else if not (cert == "") && not (lib.is_key_pair cert key)
    then err bad_key_pair
    else ok (if ca == "" then none else some ca, if cert == "" then none else some (cert, key))

unfoldable pub parse_base : HttpLib → Bytes → Result HttpError Url
parse_base lib base_url =
    if base_url == [] then err base_url_required else elim (lib.parse_url base_url) [
      | none ↦ err invalid_base_url
      | some base ↦
          if not (base.scheme == codes "http") && not (base.scheme == codes "https")
          then err bad_scheme
          else if base.hostname == []
          then err no_host
          else ok base
    ]

abbrev pub new_client : Map ConfigValue → Url → Option String × Option (String × String) → Client
new_client config base (cas, cert) = record {
  redirects_from = if flag_of (lookup "follow_redirects" config) then some base else none;
  skip_verify = flag_of (lookup "tls_skip_verify" config);
  server_name = base.hostname;
  root_cas = cas;
  certificate = cert;
}

abbrev pub configured :
    Map ConfigValue → Map String → Url → Option String × Option (String × String) → Proxy → Proxy
configured config creds base material p = record p {
  base_url = text_of (lookup "base_url" config);
  base = some base;
  auth_type = text_of (lookup "auth_type" config);
  creds = creds;
  ds_type = text_of (lookup "datasource_type" config);
  max_response_bytes = max_response_bytes (lookup "max_response_bytes" config);
  client = some (new_client config base material);
}

-- `Configure`: an error leaves the proxy as it is.
unfoldable pub configure : HttpLib → Map ConfigValue → Map String → Proxy → Result HttpError Proxy
unfolding parse_base apply_tls_material
configure lib config creds p = parse_base lib (text_of (lookup "base_url" config)) >>= λ base.
    elim (apply_tls_material lib creds) [
      | err e ↦ err e
      | ok material ↦
          if p.closed then err proxy_closed else ok (configured config creds base material p)
    ]

-- `Close`
unfoldable pub close : Proxy → Proxy
close p = if p.closed then p else record p { closed = true; client = none }

unfoldable pub effective_port : Url → Bytes
effective_port u =
    if not (u.port == [])
    then u.port
    else if to_lower u.scheme == codes "https"
    then codes "443"
    else if to_lower u.scheme == codes "http"
    then codes "80"
    else []

-- strings.TrimSuffix(s, ".")
unfoldable pub trim_dot : Bytes → Bytes
trim_dot [] = []
trim_dot (c ∷ s) = let rest = trim_dot s in if (c ∷ s) == codes "." then [] else c ∷ rest

-- strings.EqualFold, of ASCII texts
abbrev pub equal_fold : Bytes → Bytes → Bool
equal_fold a b = to_lower a == to_lower b

-- What `CheckRedirect` answers; `use_last_response` is http.ErrUseLastResponse.
pub data Redirect : Type 0 where
  followed use_last_response : Redirect
  refused : HttpError → Redirect

-- The client's `CheckRedirect`, behind `via` requests.
unfoldable pub check_redirect : Client → ℕ → Url → Redirect
unfolding effective_port trim_dot
check_redirect c via target = elim c.redirects_from [
  | none ↦ use_last_response
  | some base ↦
      if leb 10 via
      then refused too_many_redirects
      else if not (equal_fold target.scheme base.scheme)
          || not (equal_fold (trim_dot target.hostname) (trim_dot base.hostname))
          || not (effective_port target == effective_port base)
      then refused cross_origin
      else followed
]
