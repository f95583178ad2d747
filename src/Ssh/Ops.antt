-- ===== src/Ssh/Ops.antt =====
-- pkg/proxy/ssh/proxy.go: any sequence of the operations that open, use and close connections.
use forager.Prelude.{
  ℕ, ◌≡◌, ◌≢◌, refl, inl, inr, Bool-cases, Result-cases, Bool, true, false, String, List, [], ◌∷◌,
  Option, none, some, ltb, ◌==◌, nat_eq, string_eq, if◌then◌else◌, Map, lookup, arith, Result, ok,
  err,
}
use forager.Prelude.Int.{ℤ, neg_int64}
use forager.Ssh.{
  Client, Config, ClientConfig, PoolEntry, Proxy, SshLib, Remote, SshError, close_static, close_all,
  connect, configure, client_config, with_defaults, new_proxy, is_host_allowed,
}
use forager.Ssh.Pool.{
  Param, text_param, positive_param, get_client, get_sftp, static_client, static_sftp, start_sftp,
  cleanup_expired, is_before, ttl_of,
}
use forager.Prelude.Keyed.{
  one_if, count, lookup_empty, take_where-count, take_where-IsKeyed, take_where-absent,
  length-take_where,
}
use forager.Ssh.Ledger.{IsTidy, close_pool-count, close_static-count}
use forager.Ssh.Connections.{get_pooled_client-IsTidy, some_room}

pub data Op : Type 0 where
  configured : Remote → Option Config → Map String → Op
  client_wanted sftp_wanted : Remote → Map Param → Op
  cleaned_up : ℕ → Op
  shut_down : Op

unfoldable pub apply : SshLib → Op → Proxy → Proxy
unfolding configure get_client get_sftp cleanup_expired close_all
apply lib (configured remote decoded creds) p = (configure lib remote decoded creds p).0
apply lib (client_wanted remote params) p = (get_client lib remote params p).0
apply lib (sftp_wanted remote params) p = (get_sftp lib remote params p).0
apply lib (cleaned_up now) p = cleanup_expired now p
apply lib shut_down p = close_all p

unfoldable pub run : SshLib → List Op → Proxy → Proxy
unfolding apply
run lib [] p = p
run lib (op ∷ ops) p = run lib ops (apply lib op p)

close_all-IsTidy :
    (cfg : Config) (p : Proxy) → IsTidy p → IsTidy (record (close_all p) { config = cfg })
unfolding close_all
close_all-IsTidy cfg p t = record {
  ledger = λ c. omega (
    arith,
    t.ledger c,
    close_pool-count c p.pool (close_static p.client p.closed),
    close_static-count c p.client p.closed,
  );
  keyed = tt;
  named = lookup_empty "";
  bounded = omega (arith, some_room cfg.pool_max_size);
}

-- What `Configure` starts from: nothing is held.
abbrev IsEmpty : Proxy → Type 0
IsEmpty p = (p.pool ≡ []) × (p.client ≡ none)

connect-IsTidy :
    (lib : SshLib) (remote : Remote) (cfg : Config) (ssh : ClientConfig) (p : Proxy)
    → IsEmpty p
    → IsTidy p
    → IsTidy (connect lib remote cfg ssh p).0
unfolding connect
connect-IsTidy lib remote cfg ssh p empty t = elim (Bool-cases (cfg.host == "")) [
  | inl dynamic ↦
      rw (dynamic, connect)
        (record {
          ledger = λ c. ground (arith, t.ledger c);
          keyed = tt;
          named = lookup_empty "";
          bounded = omega (arith, some_room p.config.pool_max_size);
        })
  | inr static ↦ elim (Bool-cases (remote.is_reachable (lib.join_host_port cfg.host cfg.port))) [
    | inl up ↦
        rw (static, connect)
          (rw up (record {
            ledger = λ c. ground (arith, t.ledger c, t.ledger p.opened);
            keyed = t.keyed;
            named = t.named;
            bounded = t.bounded;
          }))
    | inr down ↦
        rw (static, connect)
          (rw down
            (record { ledger = t.ledger; keyed = t.keyed; named = t.named; bounded = t.bounded }))
  ]
]

configure-IsTidy :
    (lib : SshLib) (remote : Remote) (decoded : Option Config) (creds : Map String) (p : Proxy)
    → IsTidy p
    → IsTidy (configure lib remote decoded creds p).0
unfolding configure close_all
configure-IsTidy lib remote none creds p t = close_all-IsTidy p.config p t
configure-IsTidy lib remote (some decoded) creds p t =
    let cfg = with_defaults decoded in
    let q = record (close_all p) { config = cfg } in
    elim (Result-cases (client_config lib cfg creds)) [
      | inl (ssh, e) ↦
          rw e (connect-IsTidy lib remote cfg ssh q (refl, refl) (close_all-IsTidy cfg p t))
      | inr (failed, e) ↦ rw e (close_all-IsTidy cfg p t)
    ]

cleanup_expired-IsTidy : (now : ℕ) (p : Proxy) → IsTidy p → IsTidy (cleanup_expired now p)
unfolding cleanup_expired
cleanup_expired-IsTidy now p t =
    let is_old = λ (e : PoolEntry). is_before e.last_used now (neg_int64 (ttl_of p)) in
    record {
      ledger = λ c. omega (
        arith,
        t.ledger c,
        take_where-count (λ (e : PoolEntry). e.client) is_old c p.pool p.closed,
      );
      keyed = take_where-IsKeyed (λ (e : PoolEntry). e.client) is_old p.pool p.closed t.keyed;
      named = take_where-absent (λ (e : PoolEntry). e.client) is_old "" p.pool p.closed t.named;
      bounded = omega (
        arith,
        t.bounded,
        length-take_where (λ (e : PoolEntry). e.client) is_old p.pool p.closed,
      );
    }

if-IsTidy :
    {R : Type 0} (b : Bool) (x y : Proxy × R)
    → IsTidy x.0
    → IsTidy y.0
    → IsTidy (if b then x else y).0
if-IsTidy true x y t u = t
if-IsTidy false x y t u = u

static_client-IsTidy :
    (client : Option Client) (p : Proxy) → IsTidy p → IsTidy (static_client client p).0
static_client-IsTidy none p t = t
static_client-IsTidy (some c) p t = t

sftp_started-IsTidy : (p : Proxy) → IsTidy p → IsTidy (record p { sftp = true })
sftp_started-IsTidy p t = record {
  ledger = t.ledger;
  keyed = t.keyed;
  named = t.named;
  bounded = t.bounded;
}

module _ (lib : SshLib) (joined : (h : String) (n : ℤ) → lib.join_host_port h n ≢ "") where
  get_client-IsTidy :
      (remote : Remote) (params : Map Param) (p : Proxy)
      → IsTidy p
      → IsTidy (get_client lib remote params p).0
  unfolding get_client
  get_client-IsTidy remote params p t =
      let host = text_param (lookup "host" params) in
      let port = positive_param p.config.port (lookup "port" params) in
      let pooled =
        get_pooled_client-IsTidy remote (lib.join_host_port host port) p (joined host port) t in
      if-IsTidy p.dynamic _ _
        (if-IsTidy (host == "") _ _ t
          (if-IsTidy (is_host_allowed lib.net p.scope host) _ _ pooled t))
        (static_client-IsTidy p.client p t)

  start_sftp-IsTidy :
      (remote : Remote) (r : Proxy × Result SshError Client)
      → IsTidy r.0
      → IsTidy (start_sftp remote r).0
  start_sftp-IsTidy remote (p, err e) t = t
  start_sftp-IsTidy remote (p, ok c) t = if-IsTidy (remote.has_sftp c) _ _ t t

  static_sftp-IsTidy :
      (remote : Remote) (client : Option Client) (p : Proxy)
      → IsTidy p
      → IsTidy (static_sftp remote client p).0
  static_sftp-IsTidy remote none p t = t
  static_sftp-IsTidy remote (some c) p t =
      if-IsTidy p.sftp _ _ t (if-IsTidy (remote.has_sftp c) _ _ (sftp_started-IsTidy p t) t)

  get_sftp-IsTidy :
      (remote : Remote) (params : Map Param) (p : Proxy)
      → IsTidy p
      → IsTidy (get_sftp lib remote params p).0
  unfolding get_sftp
  get_sftp-IsTidy remote params p t =
      if-IsTidy p.dynamic (start_sftp remote (get_client lib remote params p))
        (static_sftp remote p.client p)
        (start_sftp-IsTidy remote (get_client lib remote params p)
          (get_client-IsTidy remote params p t))
        (static_sftp-IsTidy remote p.client p t)

  apply-IsTidy : (op : Op) (p : Proxy) → IsTidy p → IsTidy (apply lib op p)
  unfolding apply
  apply-IsTidy (configured remote decoded creds) p t = configure-IsTidy lib remote decoded creds p t
  apply-IsTidy (client_wanted remote params) p t = get_client-IsTidy remote params p t
  apply-IsTidy (sftp_wanted remote params) p t = get_sftp-IsTidy remote params p t
  apply-IsTidy (cleaned_up now) p t = cleanup_expired-IsTidy now p t
  apply-IsTidy shut_down p t = close_all-IsTidy p.config p t

  run-IsTidy : (ops : List Op) (p : Proxy) → IsTidy p → IsTidy (run lib ops p)
  unfolding run
  run-IsTidy [] p t = t
  run-IsTidy (op ∷ ops) p t = run-IsTidy ops (apply lib op p) (apply-IsTidy op p t)

new_proxy-IsTidy : IsTidy new_proxy
new_proxy-IsTidy = record {
  ledger = λ c. ground arith;
  keyed = tt;
  named = lookup_empty "";
  bounded = omega arith;
}

-- Whatever operations a proxy has carried out, each connection that it opened is held once, by the
-- pool or as the one to the fixed host, or was closed exactly once; the pool is not larger than its
-- configured size (50 if that is 0, 1 if it is negative). `Close` then leaves each connection closed
-- exactly once.
pub connections_lem :
    (lib : SshLib)
    → ((h : String) (n : ℤ) → lib.join_host_port h n ≢ "")
    → (ops : List Op)
    → IsTidy (run lib ops new_proxy)
      × ((c : Client)
          → count c (close_all (run lib ops new_proxy)).closed
            ≡ one_if (ltb c (run lib ops new_proxy).opened))
unfolding close_all
connections_lem lib joined ops =
    let t = run-IsTidy lib joined ops new_proxy new_proxy-IsTidy in
    let p = run lib ops new_proxy in
    (
      t,
      λ c. omega (
        arith,
        t.ledger c,
        close_pool-count c p.pool (close_static p.client p.closed),
        close_static-count c p.client p.closed,
      ),
    )
