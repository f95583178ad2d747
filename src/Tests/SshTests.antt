-- ===== src/Tests/SshTests.antt =====
-- pkg/proxy/ssh/proxy.go: a proxy in dynamic mode, with a pool of one connection.
use forager.Prelude.{
  ◌≡◌, ◌≢◌, refl, true, false, ltb, String, List, [], ◌∷◌, none, some, Map, lookup, insert, delete,
  ok, err, nat_eq,
}
use forager.Prelude.Int.{pos}
use forager.Discovery.Proxy.{Net}
use forager.Ssh.{
  Client, Config, Proxy, SshLib, Remote, empty_config, new_proxy, close_all, configure,
  client_config, connect, is_host_allowed, host_not_allowed,
}
use forager.Ssh.Pool.{Param, text, text_param, get_client}
use forager.Prelude.Keyed.{count, one_if}
use forager.Ssh.Ledger.{IsTidy}
use forager.Ssh.Ops.{Op, configured, client_wanted, run, apply, connections_lem}
use forager.Ssh.Allowed.{get_client-IsAllowed}
use forager.Ssh.Locks.{
  Reach, begun, crossed, lock_pool, unlock_pool, unlock, read_lock, read_unlock, deadlock_lem,
}

abbrev net : Net
net = record {
  parse_cidr = λ s. none;
  parse_ip = λ s. none;
  net_contains = λ n ip. false;
  lookup_host = λ s. none;
}

abbrev lib : SshLib
lib = record {
  is_known_hosts_file = λ s. true;
  parse_authorized_key = λ s. none;
  parse_private_key = λ s. none;
  parse_private_key_with_passphrase = λ s t. none;
  join_host_port = λ h n. "host:22";
  net = net;
}

abbrev remote : Remote
remote = record {
  now = 7;
  is_reachable = λ s. true;
  is_alive = λ c. false;
  has_session = λ c. true;
  runs_command = λ c. true;
  has_sftp = λ c. true;
}

abbrev config : Config
config = record empty_config { pool_max_size = pos 1; allowed_hosts = "web" ∷ [] }

abbrev creds : Map String
creds = ("username", "forager") ∷ ("password", "secret") ∷ []

abbrev web : Map Param
web = ("host", text "web") ∷ []

-- The second request finds the connection dead, closes it and dials again.
abbrev ops : List Op
ops =
    configured remote (some config) creds ∷ client_wanted remote web ∷ client_wanted remote web ∷ []

abbrev configured_proxy : Proxy
configured_proxy = (configure lib remote (some config) creds new_proxy).0

redialled : (run lib ops new_proxy).opened ≡ 2
unfolding run apply configure close_all client_config connect get_client lookup insert delete
redialled = refl

old_closed : (run lib ops new_proxy).closed ≡ 0 ∷ []
unfolding run apply configure close_all client_config connect get_client lookup insert delete
old_closed = refl

refused :
    (get_client lib remote (("host", text "db") ∷ []) configured_proxy).1
    ≡ err (host_not_allowed "db")
unfolding get_client configure close_all client_config connect lookup
refused = refl

connections_lem_example :
    IsTidy (run lib ops new_proxy)
    × ((c : Client)
        → count c (close_all (run lib ops new_proxy)).closed
          ≡ one_if (ltb c (run lib ops new_proxy).opened))
connections_lem_example = connections_lem lib (λ h n. cc) ops

abbrev dialled : Proxy
dialled = record configured_proxy {
  pool = ("host:22", record { client = 0; last_used = 7 }) ∷ [];
  opened = 1;
}

allowed_run : get_client lib remote web configured_proxy ≡ (dialled, ok 0)
unfolding get_client configure close_all client_config connect lookup insert delete
allowed_run = refl

is_dynamic : configured_proxy.dynamic ≡ true
unfolding configure close_all client_config connect lookup
is_dynamic = refl

get_client-IsAllowed_example :
    (text_param (lookup "host" web) ≢ "")
    × (is_host_allowed net configured_proxy.scope (text_param (lookup "host" web)) ≡ true)
    × (lookup "host:22" dialled.pool ≡ some (record { client = 0; last_used = 7 }))
get_client-IsAllowed_example =
    get_client-IsAllowed lib remote web configured_proxy dialled 0 is_dynamic allowed_run

deadlock_lem_example :
    Reach (begun (λ k. [])) (crossed (λ k. []))
    × ((crossed (λ k. [])).request ≡ read_lock ∷ read_unlock ∷ unlock_pool ∷ [])
    × ((crossed (λ k. [])).closer ≡ lock_pool ∷ unlock_pool ∷ unlock ∷ [])
    × ((crossed (λ k. [])).locks.pool ≡ some 0)
    × ((crossed (λ k. [])).locks.writer ≡ some 1)
deadlock_lem_example = deadlock_lem (λ k. []) Reach.here
