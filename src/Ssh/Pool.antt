-- ===== src/Ssh/Pool.antt =====
-- pkg/proxy/ssh/proxy.go: the pool of connections, and the client of a request.
use forager.Prelude.{
  ℕ, ◌+◌, ◌*◌, ◌-◌, ◌%◌, ◌^◌, Bool, true, String, [], ◌∷◌, Option, none, some, ltb, leb, ◌==◌,
  nat_eq, string_eq, if◌then◌else◌, Map, lookup, insert, delete, length, Result, ok, err,
}
use forager.Prelude.Int.{ℤ, pos, negsuc, neg_int64}
use forager.Prelude.Keyed.{take_where}
use forager.Discovery.Params.{wrap_int64}
use forager.Discovery.Proxy.{is_zero}
use forager.Ssh.{
  Client, PoolEntry, Proxy, SshLib, Remote, SshError, config_not_initialized, not_connected,
  host_required, host_not_allowed, dial_failed, sftp_failed, is_host_allowed,
}

-- An entry of the pool is removed, and its connection closed.
unfoldable pub drop_entry : String → Proxy → Proxy
drop_entry addr p = elim (lookup addr p.pool) [
  | some e ↦ record p { closed = e.client ∷ p.closed; pool = delete addr p.pool }
  | none ↦ p
]

-- The loop of `evictOldestLocked` behind its first round: the oldest address so far, with its time.
abbrev pub older : String × ℕ → String × PoolEntry → String × ℕ
older (old, at) (addr, e) = if ltb e.last_used at then (addr, e.last_used) else (old, at)

unfoldable pub oldest_from : String × ℕ → Map PoolEntry → String × ℕ
oldest_from best [] = best
oldest_from best (entry ∷ pool) = oldest_from (older best entry) pool

abbrev pub evict_from : Map PoolEntry → Proxy → Proxy
evict_from [] p = p
evict_from ((addr, e) ∷ pool) p =
    let (old, _) = oldest_from (addr, e.last_used) pool in if old == "" then p else drop_entry old p

unfoldable pub evict_oldest : Proxy → Proxy
unfolding oldest_from drop_entry
evict_oldest p = evict_from p.pool p

-- len(p.pool) >= maxSize
abbrev pub is_full : ℤ → ℕ → Bool
is_full (pos limit) size = leb limit size
is_full (negsuc _) size = true

abbrev pub pool_limit : Proxy → ℤ
pool_limit p = if is_zero p.config.pool_max_size then pos 50 else p.config.pool_max_size

abbrev pub make_room : Proxy → Proxy
make_room p = if is_full (pool_limit p) (length p.pool) then evict_oldest p else p

abbrev pub add_client : Remote → String → Proxy → Proxy × Result SshError Client
add_client remote addr p = (
  record p {
    pool = insert addr (record { client = p.opened; last_used = remote.now }) p.pool;
    opened = p.opened + 1;
  },
  ok p.opened,
)

unfoldable pub dial_pooled : Remote → String → Proxy → Proxy × Result SshError Client
dial_pooled remote addr p = elim p.ssh_config [
  | none ↦ (p, err config_not_initialized)
  | some _ ↦
      if remote.is_reachable addr then add_client remote addr p else (p, err (dial_failed addr))
]

unfoldable pub get_pooled_client : Remote → String → Proxy → Proxy × Result SshError Client
unfolding drop_entry evict_oldest dial_pooled
get_pooled_client remote addr p = elim (lookup addr p.pool) [
  | some e ↦
      if remote.is_alive e.client
      then (
        record p { pool = insert addr (record e { last_used = remote.now }) p.pool },
        ok e.client,
      )
      else dial_pooled remote addr (make_room (drop_entry addr p))
  | none ↦ dial_pooled remote addr (make_room p)
]

-- A parameter of a request. Of a float64 the code reads whether it is positive, and its conversion
-- to int.
pub data Param : Type 0 where
  text : String → Param
  float : (positive : Bool) (as_int : ℤ) → Param
  other : Param

abbrev pub text_param : Option Param → String
text_param (some (text s)) = s
text_param _ = ""

abbrev pub positive_param : ℤ → Option Param → ℤ
positive_param default (some (float true n)) = n
positive_param default _ = default

abbrev pub static_client : Option Client → Proxy → Proxy × Result SshError Client
static_client none p = (p, err not_connected)
static_client (some c) p = (p, ok c)

unfoldable pub get_client : SshLib → Remote → Map Param → Proxy → Proxy × Result SshError Client
unfolding get_pooled_client is_host_allowed
get_client lib remote params p =
    if p.dynamic
    then (let host = text_param (lookup "host" params) in
        if host == ""
        then (p, err host_required)
        else if is_host_allowed lib.net p.scope host
        then get_pooled_client remote
            (lib.join_host_port host (positive_param p.config.port (lookup "port" params))) p
        else (p, err (host_not_allowed host)))
    else static_client p.client p

-- time.Duration(n) * time.Second, in int64
abbrev pub seconds : ℤ → ℤ
seconds (pos n) = wrap_int64 (n * 1_000_000_000)
seconds (negsuc n) = wrap_int64 (2 ^ 64 - (n + 1) * 1_000_000_000 % 2 ^ 64)

-- The time to live of the configuration, or ten minutes.
abbrev pub ttl_of : Proxy → ℤ
ttl_of p = let ttl = seconds p.config.pool_ttl in if is_zero ttl then pos 600_000_000_000 else ttl

-- t.Before(now.Add(d))
abbrev pub is_before : ℕ → ℕ → ℤ → Bool
is_before t now (pos d) = ltb t (now + d)
is_before t now (negsuc n) = ltb (t + (n + 1)) now

-- The loop deletes the expired entries, and closes their connections.
unfoldable pub cleanup_expired : ℕ → Proxy → Proxy
unfolding take_where
cleanup_expired now p =
    let (kept, closed) =
      take_where (λ (e : PoolEntry). e.client)
        (λ e. is_before e.last_used now (neg_int64 (ttl_of p))) p.pool p.closed in
    record p { pool = kept; closed = closed }

-- The SFTP client is started on the connection of the request, or kept for a fixed host.
abbrev pub start_sftp : Remote → Proxy × Result SshError Client → Proxy × Result SshError Client
start_sftp remote (p, err e) = (p, err e)
start_sftp remote (p, ok c) = if remote.has_sftp c then (p, ok c) else (p, err sftp_failed)

abbrev pub static_sftp : Remote → Option Client → Proxy → Proxy × Result SshError Client
static_sftp remote none p = (p, err not_connected)
static_sftp remote (some c) p =
    if p.sftp
    then (p, ok c)
    else if remote.has_sftp c
    then (record p { sftp = true }, ok c)
    else (p, err sftp_failed)

unfoldable pub get_sftp : SshLib → Remote → Map Param → Proxy → Proxy × Result SshError Client
get_sftp lib remote params p =
    if p.dynamic
    then start_sftp remote (get_client lib remote params p)
    else static_sftp remote p.client p
