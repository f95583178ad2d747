-- ===== src/Http/Forwarding.antt =====
-- pkg/proxy/http/proxy.go: what a request that is answered sent, and where to.
use mathlib.Core.Path.{subst}
use mathlib.Core.List.{append-nil}
use forager.Prelude.{
  ℕ, ◌≤◌, ◌<◌, ◌≡◌, ◌≢◌, ◌⊎◌, refl, sym, ap, inl, inr, true, ◌&&◌, ◌++◌, ◌∷◌, Bool-cases,
  Option-cases, Result-cases, some, [], ◌==◌, nat_eq, string_eq, eq_iff, length, arith, Result, ok,
  err,
}
use forager.Prelude.Int.{half}
use forager.Prelude.Bytes.{Bytes, bytes_eq, bytes_beq_iff}
use forager.Http.{Url, Client, Proxy, HttpLib}
use forager.Http.Target.{ends_in_slash, join_path, resolve_target_url, target_of}
use forager.Http.Response.{read_response_at, DoError}
use forager.Http.Requests.{
  ActionRequest, HttpRequest, HttpResponse, Incoming, Upstream, request_to, answered, forward_to,
  handle_request,
}

-- A resolved target has the scheme, user and host of the base URL.
resolve_target_url-eq-ok :
    (lib : HttpLib) (base : Url) (req_url : Bytes) (target : Url)
    → resolve_target_url lib (some base) req_url ≡ ok target
    → (ref : Url) × (lib.parse_url req_url ≡ some ref)
      × (ref.scheme ≡ [])
      × (ref.host ≡ [])
      × (target ≡ target_of base ref)
unfolding resolve_target_url
resolve_target_url-eq-ok lib base req_url target h = elim (Option-cases (lib.parse_url req_url)) [
  | inl bad ↦ ground arith
  | inr (ref, parsed) ↦ elim (Bool-cases (ref.scheme == [])) [
    | inr scheme ↦ ground arith
    | inl no_scheme ↦ elim (Bool-cases (ref.host == [])) [
      | inr host ↦ ground arith
      | inl no_host ↦ (
        ref,
        parsed,
        (bytes_beq_iff ref.scheme []).0 no_scheme,
        (bytes_beq_iff ref.host []).0 no_host,
        ground arith,
      )
    ]
  ]
]

-- A response that is passed on is the upstream's, whole.
answered-eq-ok :
    (cap : ℕ) (got : Result DoError Incoming) (resp : HttpResponse)
    → cap < half
    → ((raw : Incoming) (body : Bytes) → got ≡ ok raw → raw.body ≡ some body → length body < half)
    → answered cap got ≡ ok resp
    → (got ≡ ok (record { status = resp.status; header = resp.header; body = some resp.body }))
      × (length resp.body ≤ cap)
answered-eq-ok cap (err e) resp most small h = ground arith
answered-eq-ok cap (ok raw) resp most small h = elim (Option-cases raw.body) [
  | inl unread ↦ ground arith
  | inr (body, read) ↦ ground (arith, read_response_at cap body most (small raw body refl read))
]

-- The one path behind the other, with a slash that both have at the join written once.
abbrev pub IsJoined : Bytes → Bytes → Bytes → Type 0
IsJoined base path joined =
    (joined ≡ base ++ path)
    ⊎ ((rest : Bytes) × (path ≡ b'/' ∷ rest)
        × (ends_in_slash base ≡ true)
        × (joined ≡ base ++ rest))

join_path-IsJoined : (base path : Bytes) → IsJoined base path (join_path base path)
unfolding join_path
join_path-IsJoined base [] = inl (sym (append-nil base))
join_path-IsJoined base (c ∷ s) = elim (Bool-cases (ends_in_slash base && c == b'/')) [
  | inl both ↦ inr (s, ap (λ (d : ℕ). d ∷ s) (ground arith), ground arith, rw both refl)
  | inr plain ↦ inl (rw plain refl)
]

-- The request that was sent for an answer, and the response that it got.
pub record IsForwarded (lib : HttpLib) (up : Upstream) (p : Proxy) (req : ActionRequest)
    (resp : HttpResponse) : Type 0 where
  pub client : Client
  pub base : Url
  pub ref : Url
  pub connected : p.client ≡ some client
  pub based : p.base ≡ some base
  pub parsed : lib.parse_url req.url ≡ some ref
  pub no_scheme : ref.scheme ≡ []
  pub no_host : ref.host ≡ []
  pub target : Url
  pub scheme_kept : target.scheme ≡ base.scheme
  pub user_kept : target.user ≡ base.user
  pub host_kept : target.host ≡ base.host
  pub hostname_kept : target.hostname ≡ base.hostname
  pub port_kept : target.port ≡ base.port
  pub path_joined : IsJoined base.path ref.path target.path
  pub query_passed : target.raw_query ≡ ref.raw_query
  pub fragment_passed : target.fragment ≡ ref.fragment
  pub sent :
      up.exchange client (request_to up p req target)
      ≡ ok (record { status = resp.status; header = resp.header; body = some resp.body })
  pub capped : length resp.body ≤ p.max_response_bytes

module _ (lib : HttpLib) (up : Upstream) (p : Proxy) (req : ActionRequest) (resp : HttpResponse)
    (most : p.max_response_bytes < half)
    (small : (c : Client) (r : HttpRequest) (raw : Incoming) (body : Bytes)
      → up.exchange c r ≡ ok raw
      → raw.body ≡ some body
      → length body < half) where
  forward_to-IsForwarded :
      (client : Client) (base : Url)
      → p.client ≡ some client
      → p.base ≡ some base
      → forward_to up client p req (resolve_target_url lib (some base) req.url) ≡ ok resp
      → IsForwarded lib up p req resp
  forward_to-IsForwarded client base connected based h =
      elim (Result-cases (resolve_target_url lib (some base) req.url)) [
        | inr (e, refused) ↦ ground arith
        | inl (target, resolved) ↦
            let (ref, parsed, no_scheme, no_host, same) =
              resolve_target_url-eq-ok lib base req.url target resolved in
            let sent_to = request_to up p req target in
            elim (Bool-cases (up.accepts sent_to.method target)) [
              | inr bad ↦ ground arith
              | inl fine ↦
                  let (sent, within) =
                    answered-eq-ok p.max_response_bytes (up.exchange client sent_to) resp most
                      (small client sent_to) (ground arith) in
                  record {
                    target = target_of base ref;
                    scheme_kept = refl;
                    user_kept = refl;
                    host_kept = refl;
                    hostname_kept = refl;
                    port_kept = refl;
                    path_joined = join_path-IsJoined base.path ref.path;
                    query_passed = refl;
                    fragment_passed = refl;
                    client = client;
                    base = base;
                    ref = ref;
                    connected = connected;
                    based = based;
                    parsed = parsed;
                    no_scheme = no_scheme;
                    no_host = no_host;
                    sent =
                        subst
                          (λ t.
                            up.exchange client (request_to up p req t)
                            ≡ ok (record {
                              status = resp.status;
                              header = resp.header;
                              body = some resp.body;
                            }))
                          same sent;
                    capped = within;
                  }
            ]
      ]

  -- A request that is answered, other than one with the action vm_service_map, was sent to the
  -- scheme, user, host and port of the base URL, with the query and fragment of the request's URL,
  -- which names no scheme and no host, and with the path of that URL behind the base's. Its answer
  -- is the status, the headers and the whole body of the upstream's response, within the cap. The
  -- cap is an int64, and no body has 2^63 bytes.
  pub handle_request-IsForwarded :
      req.action ≢ "vm_service_map"
      → handle_request lib up req p ≡ ok resp
      → IsForwarded lib up p req resp
  unfolding handle_request
  handle_request-IsForwarded other h = elim (Option-cases p.client) [
    | inl closed ↦ ground arith
    | inr (client, connected) ↦ elim (Option-cases p.base) [
      | inl unconfigured ↦ ground arith
      | inr (base, based) ↦
          forward_to-IsForwarded client base connected based
            (ground (arith, eq_iff req.action "vm_service_map"))
    ]
  ]
