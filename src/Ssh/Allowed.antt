-- ===== src/Ssh/Allowed.antt =====
-- pkg/proxy/ssh/proxy.go: a client is given out only for an allowed host, and is that host's.
use forager.Prelude.{
  ℕ, ◌≡◌, ◌≢◌, refl, inl, inr, Bool-cases, Option-cases, true, String, some, ◌==◌, string_eq,
  eq_iff, Map, lookup, insert, lookup-insert, arith, ok,
}
use forager.Ssh.{Client, PoolEntry, Proxy, SshLib, Remote, is_host_allowed}
use forager.Ssh.Pool.{
  Param, text_param, positive_param, drop_entry, make_room, dial_pooled, get_pooled_client,
  get_client,
}

-- The connection to an address in the pool, just used.
record IsFor (addr : String) (c : Client) (now : ℕ) (p : Proxy) : Type 0 where
  entry : PoolEntry
  pooled_as : lookup addr p.pool ≡ some entry
  same : entry.client ≡ c
  used : entry.last_used ≡ now

lookup-insert_self :
    (k : String) (e : PoolEntry) (pool : Map PoolEntry) → lookup k (insert k e pool) ≡ some e
lookup-insert_self k e pool = ground (arith, lookup-insert k k e pool, eq_iff k k)

dial_pooled-IsFor :
    (remote : Remote) (addr : String) (p q : Proxy) (c : Client)
    → dial_pooled remote addr p ≡ (q, ok c)
    → IsFor addr c remote.now q
unfolding dial_pooled
dial_pooled-IsFor remote addr p q c h = elim (Option-cases p.ssh_config) [
  | inl missing ↦ ground arith
  | inr (cfg, found) ↦ elim (Bool-cases (remote.is_reachable addr)) [
    | inl up ↦ record {
      entry = record { client = c; last_used = remote.now };
      pooled_as = ground (
        arith,
        lookup-insert_self addr (record { client = p.opened; last_used = remote.now }) p.pool,
      );
      same = refl;
      used = refl;
    }
    | inr down ↦ ground arith
  ]
]

get_pooled_client-IsFor :
    (remote : Remote) (addr : String) (p q : Proxy) (c : Client)
    → get_pooled_client remote addr p ≡ (q, ok c)
    → IsFor addr c remote.now q
unfolding get_pooled_client
get_pooled_client-IsFor remote addr p q c h = elim (Option-cases (lookup addr p.pool)) [
  | inl absent ↦ dial_pooled-IsFor remote addr (make_room p) q c (ground arith)
  | inr (e, found) ↦ elim (Bool-cases (remote.is_alive e.client)) [
    | inl alive ↦ record {
      entry = record e { last_used = remote.now };
      pooled_as =
          ground (arith, lookup-insert_self addr (record e { last_used = remote.now }) p.pool);
      same = ground arith;
      used = refl;
    }
    | inr dead ↦ dial_pooled-IsFor remote addr (make_room (drop_entry addr p)) q c (ground arith)
  ]
]

-- In dynamic mode a request gets a client only if it names a host that the scope allows; the client
-- is the pool's for the address of that host and the request's port, or the configured one, and its
-- time of use is now.
pub get_client-IsAllowed :
    (lib : SshLib) (remote : Remote) (params : Map Param) (p q : Proxy) (c : Client)
    → p.dynamic ≡ true
    → get_client lib remote params p ≡ (q, ok c)
    → (text_param (lookup "host" params) ≢ "")
      × (is_host_allowed lib.net p.scope (text_param (lookup "host" params)) ≡ true)
      × (lookup
            (lib.join_host_port
              (text_param (lookup "host" params))
              (positive_param p.config.port (lookup "port" params)))
            q.pool
          ≡ some (record { client = c; last_used = remote.now }))
unfolding get_client
get_client-IsAllowed lib remote params p q c dynamic h =
    let host = text_param (lookup "host" params) in
    let addr = lib.join_host_port host (positive_param p.config.port (lookup "port" params)) in
    elim (Bool-cases (host == "")) [
      | inl empty ↦ ground arith
      | inr named ↦ elim (Bool-cases (is_host_allowed lib.net p.scope host)) [
        | inl allowed ↦
            let pooled : get_pooled_client remote addr p ≡ (q, ok c) = ground arith in
            let for = get_pooled_client-IsFor remote addr p q c pooled in
            (
              ground (arith, eq_iff host ""),
              allowed,
              ground (arith, for.pooled_as, for.same, for.used),
            )
        | inr refused ↦ ground arith
      ]
    ]
