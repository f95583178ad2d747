-- ===== src/Errors.antt =====
-- pkg/proxy/errors.go: the class of an integration error, and what is reported of its text.
pub mod Bounds
use forager.Prelude.{
  ℕ, zero, suc, Bool, true, false, ◌&&◌, ◌||◌, not, String, Option, none, some, List, [], ◌∷◌, ◌++◌,
  ltb, leb, ◌==◌, string_eq, if◌then◌else◌, length,
}
use forager.Prelude.Bytes.{Bytes, codes, contains, to_lower, fields, join}

-- A Go error: its text, whether `errors.As` finds a net.Error in it or `errors.Is` an EOF, and
-- whether `errors.Is` finds `ErrUpstreamUnreachable`.
pub record GoError : Type 0 where
  pub text : Bytes
  pub is_network : Bool
  pub is_unreachable : Bool

pub data ErrorClass : Type 0 where
  datasource_integration_failure ssh_integration_failure : ErrorClass

unfoldable pub error_class : String → ErrorClass
error_class proxy_type =
    if proxy_type == "ssh-proxy" then ssh_integration_failure else datasource_integration_failure

abbrev pub integration_error_markers : List Bytes
integration_error_markers =
    codes "connection refused"
    ∷ codes "connection reset"
    ∷ codes "broken pipe"
    ∷ codes "no such host"
    ∷ codes "i/o timeout"
    ∷ codes "network is unreachable"
    ∷ codes "no route to host"
    ∷ codes "handshake failed"
    ∷ codes "unable to authenticate"
    ∷ codes "authentication failed"
    ∷ codes "password authentication"
    ∷ codes "access denied for user"
    ∷ codes "permission denied (publickey"
    ∷ codes "host key"
    ∷ codes "x509:"
    ∷ codes "tls:"
    ∷ codes "sasl"
    ∷ codes "noauth"
    ∷ codes "wrongpass"
    ∷ []

unfoldable pub contains_any : List Bytes → Bytes → Bool
contains_any [] msg = false
contains_any (m ∷ ms) msg = contains m msg || contains_any ms msg

unfoldable pub is_integration_error : Option GoError → Bool
unfolding contains_any
is_integration_error none = false
is_integration_error (some err) =
    err.is_network || contains_any integration_error_markers (to_lower err.text)

-- The regular expressions of the file, in the order in which `RedactError` applies them.
pub data Pattern : Type 0 where
  pem_block url_userinfo bearer secret_kv ipv6_bracket ipv6_bare ipv4 host_port : Pattern
  lookup_host dial_host : Pattern

-- strings.ToValidUTF8, and `ReplaceAllString` of each expression with its replacement.
pub record Regexps : Type 0 where
  pub to_valid_utf8 : Bytes → Bytes
  pub replace_all : Pattern → Bytes → Bytes

abbrev pub max_reported_error_len : ℕ
max_reported_error_len = 512

-- utf8.RuneStart: not a continuation byte.
unfoldable pub rune_start : ℕ → Bool
rune_start b = not (leb 128 b && ltb b 192)

abbrev pub starts_at : Bytes → ℕ → Bool
starts_at [] i = true
starts_at (c ∷ s) zero = rune_start c
starts_at (c ∷ s) (suc i) = starts_at s i

-- The loop that steps back to the start of a rune.
unfoldable pub rune_boundary : Bytes → ℕ → ℕ
rune_boundary msg zero = zero
rune_boundary msg (suc i) =
    let back = rune_boundary msg i in if starts_at msg (suc i) then suc i else back

abbrev pub take : ℕ → Bytes → Bytes
take zero xs = []
take (suc n) [] = []
take (suc n) (x ∷ xs) = x ∷ take n xs

-- The last lines of `RedactError`: `…` is three bytes.
unfoldable pub bound_length : Bytes → Bytes
unfolding rune_boundary
bound_length msg =
    if ltb max_reported_error_len (length msg)
    then take (rune_boundary msg max_reported_error_len) msg ++ (0xE2 ∷ 0x80 ∷ 0xA6 ∷ [])
    else msg

abbrev pub redactions : List Pattern
redactions =
    pem_block ∷ url_userinfo ∷ bearer ∷ secret_kv ∷ ipv6_bracket ∷ ipv6_bare ∷ ipv4 ∷ host_port
    ∷ lookup_host ∷ dial_host ∷ []

abbrev pub apply_redactions : Regexps → List Pattern → Bytes → Bytes
apply_redactions re [] msg = msg
apply_redactions re (p ∷ ps) msg = apply_redactions re ps (re.replace_all p msg)

unfoldable pub redact_error : Regexps → Bytes → Bytes
unfolding bound_length
redact_error re msg =
    bound_length (join (codes " ") (fields (apply_redactions re redactions (re.to_valid_utf8 msg))))
