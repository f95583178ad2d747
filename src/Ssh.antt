-- ===== src/Ssh.antt =====
-- pkg/proxy/ssh/proxy.go: the SSH proxy, with one connection to a fixed host or a pool of
-- connections to allowed hosts. `Pool` has the pool, `Requests` the handlers, `Locks` the two locks.
pub mod Pool
pub mod Ledger
pub mod Tidy
pub mod Connections
pub mod Ops
pub mod Locks
pub mod Allowed
pub mod Requests
use forager.Prelude.{
  ℕ, ◌+◌, Bool, true, false, String, List, [], ◌∷◌, ◌++◌, Option, none, some, ◌==◌, nat_eq,
  string_eq, if◌then◌else◌, Map, lookup, Result, ok, err, ◌>>=◌, ◌>>◌,
}
use forager.Prelude.Int.{ℤ, pos}
use forager.Prelude.Bytes.{Bytes}
use forager.Discovery.Proxy.{Net, Scope, add_cidrs, is_zero, is_target_allowed}

-- A connection, known by the number of connections that were dialled before it.
abbrev pub Client : Type 0
Client = ℕ

pub record Config : Type 0 where
  pub host : String
  pub port : ℤ
  pub max_output_bytes : ℤ
  pub allowed_hosts : List String
  pub pool_ttl : ℤ
  pub pool_max_size : ℤ
  pub known_hosts : String
  pub host_key : String

pub record PoolEntry : Type 0 where
  pub client : Client
  pub last_used : ℕ

pub data HostKeyCheck : Type 0 where
  listed_in : String → HostKeyCheck
  fixed_key : Bytes → HostKeyCheck
  insecure : HostKeyCheck

pub data AuthMethod : Type 0 where
  public_keys : Bytes → AuthMethod
  password : String → AuthMethod

pub record ClientConfig : Type 0 where
  pub user : String
  pub auth : List AuthMethod
  pub host_key : HostKeyCheck

-- `client` and `sftp` are those of a fixed host; `sftp` tells whether there is one. `cleaning` tells
-- whether the goroutine of `poolCleanupLoop` runs. `opened` counts the connections that were
-- dialled, and `closed` lists those on which `Close` was called, latest first.
pub record Proxy : Type 0 where
  pub client : Option Client
  pub sftp : Bool
  pub config : Config
  pub dynamic : Bool
  pub ssh_config : Option ClientConfig
  pub pool : Map PoolEntry
  pub scope : Scope
  pub cleaning : Bool
  pub opened : ℕ
  pub closed : List Client

pub data SshError : Type 0 where
  bad_config bad_known_hosts bad_host_key bad_private_key no_auth_method : SshError
  username_required not_connected config_not_initialized host_required : SshError
  session_failed command_failed sftp_failed : SshError
  host_not_allowed dial_failed : String → SshError

-- golang.org/x/crypto/ssh with its knownhosts, and the packages net and strconv.
pub record SshLib : Type 0 where
  pub is_known_hosts_file : String → Bool
  pub parse_authorized_key : String → Option Bytes
  pub parse_private_key : String → Option Bytes
  pub parse_private_key_with_passphrase : String → String → Option Bytes
  pub join_host_port : String → ℤ → String
  pub net : Net

-- What the network does during one operation, and its time: whether dialling an address succeeds,
-- a connection answers the keepalive, a session opens and runs a command, an SFTP client starts.
pub record Remote : Type 0 where
  pub now : ℕ
  pub is_reachable : String → Bool
  pub is_alive : Client → Bool
  pub has_session : Client → Bool
  pub runs_command : Client → Bool
  pub has_sftp : Client → Bool

abbrev pub empty_config : Config
empty_config = record {
  host = "";
  port = pos 0;
  max_output_bytes = pos 0;
  allowed_hosts = [];
  pool_ttl = pos 0;
  pool_max_size = pos 0;
  known_hosts = "";
  host_key = "";
}

-- `New`
abbrev pub new_proxy : Proxy
new_proxy = record {
  client = none;
  sftp = false;
  config = empty_config;
  dynamic = false;
  ssh_config = none;
  pool = [];
  scope = record { nets = []; hosts = [] };
  cleaning = false;
  opened = 0;
  closed = [];
}

-- creds[key]: a missing key reads as "".
unfoldable pub cred : String → Map String → String
cred key creds = elim (lookup key creds) [ some v ↦ v | none ↦ "" ]

unfoldable pub host_key_callback : SshLib → Config → Result SshError HostKeyCheck
host_key_callback lib cfg =
    if cfg.known_hosts == ""
    then (if cfg.host_key == "" then ok insecure else elim (lib.parse_authorized_key cfg.host_key) [
      | some key ↦ ok (fixed_key key)
      | none ↦ err bad_host_key
    ])
    else if lib.is_known_hosts_file cfg.known_hosts
    then ok (listed_in cfg.known_hosts)
    else err bad_known_hosts

abbrev pub parse_key : SshLib → String → String → Option Bytes
parse_key lib key passphrase =
    if passphrase == ""
    then lib.parse_private_key key
    else lib.parse_private_key_with_passphrase key passphrase

abbrev pub key_methods : SshLib → Map String → Result SshError (List AuthMethod)
key_methods lib creds =
    if cred "private_key" creds == ""
    then ok []
    else elim (parse_key lib (cred "private_key" creds) (cred "passphrase" creds)) [
      | some signer ↦ ok (public_keys signer ∷ [])
      | none ↦ err bad_private_key
    ]

abbrev pub password_methods : Map String → List AuthMethod
password_methods creds =
    if cred "password" creds == "" then [] else password (cred "password" creds) ∷ []

abbrev pub some_method : List AuthMethod → Result SshError (List AuthMethod)
some_method [] = err no_auth_method
some_method (m ∷ ms) = ok (m ∷ ms)

unfoldable pub build_auth_methods : SshLib → Map String → Result SshError (List AuthMethod)
unfolding cred
build_auth_methods lib creds = do
  methods ← key_methods lib creds
  some_method (methods ++ password_methods creds)

-- The client configuration that `Configure` builds.
unfoldable pub client_config : SshLib → Config → Map String → Result SshError ClientConfig
unfolding build_auth_methods host_key_callback cred
client_config lib cfg creds = build_auth_methods lib creds >>= λ methods.
    if cred "username" creds == ""
    then err username_required
    else (host_key_callback lib cfg >>= λ check.
        ok (record { user = cred "username" creds; auth = methods; host_key = check }))

-- The same loop as that of discovery's `parseAllowedCIDRs`.
unfoldable pub parse_allowed_hosts : Net → List String → Scope
unfolding add_cidrs
parse_allowed_hosts net hosts = add_cidrs net hosts (record { nets = []; hosts = [] })

-- The same tests as those of discovery's `isTargetAllowed`.
unfoldable pub is_host_allowed : Net → Scope → String → Bool
unfolding is_target_allowed
is_host_allowed net allowed host = is_target_allowed net allowed host

abbrev pub close_static : Option Client → List Client → List Client
close_static none closed = closed
close_static (some c) closed = c ∷ closed

-- The loop of `closeAllLocked` over the pool, which it empties.
unfoldable pub close_pool : Map PoolEntry → List Client → List Client
close_pool [] closed = closed
close_pool ((_, e) ∷ pool) closed = close_pool pool (e.client ∷ closed)

unfoldable pub close_all : Proxy → Proxy
unfolding close_pool
close_all p = record p {
  cleaning = false;
  sftp = false;
  client = none;
  pool = [];
  ssh_config = none;
  closed = close_pool p.pool (close_static p.client p.closed);
}

abbrev pub with_defaults : Config → Config
with_defaults cfg = record cfg {
  port = if is_zero cfg.port then pos 22 else cfg.port;
  max_output_bytes = if is_zero cfg.max_output_bytes then pos 1_048_576 else cfg.max_output_bytes;
}

-- A fixed host is dialled at once.
unfoldable pub connect : SshLib → Remote → Config → ClientConfig → Proxy → Proxy × Option SshError
unfolding parse_allowed_hosts
connect lib remote cfg ssh p =
    if cfg.host == ""
    then (
      record p {
        dynamic = true;
        ssh_config = some ssh;
        pool = [];
        scope = parse_allowed_hosts lib.net cfg.allowed_hosts;
        cleaning = true;
      },
      none,
    )
    else (let addr = lib.join_host_port cfg.host cfg.port in
        let static = record p { dynamic = false; ssh_config = none } in
        if remote.is_reachable addr
        then (record static { client = some p.opened; opened = p.opened + 1 }, none)
        else (static, some (dial_failed addr)))

abbrev pub connect_with :
    SshLib → Remote → Config → Result SshError ClientConfig → Proxy → Proxy × Option SshError
connect_with lib remote cfg (err e) p = (p, some e)
connect_with lib remote cfg (ok ssh) p = connect lib remote cfg ssh p

-- `decoded` is what the JSON of the configuration gives.
unfoldable pub configure :
    SshLib → Remote → Option Config → Map String → Proxy → Proxy × Option SshError
unfolding close_all client_config connect
configure lib remote none creds p = (close_all p, some bad_config)
configure lib remote (some decoded) creds p =
    let cfg = with_defaults decoded in
    connect_with lib remote cfg (client_config lib cfg creds)
      (record (close_all p) { config = cfg })

unfoldable pub health_check : Remote → Proxy → Option SshError
health_check remote p =
    if p.dynamic
    then elim p.ssh_config [ none ↦ some config_not_initialized | some _ ↦ none ]
    else elim p.client [
      | none ↦ some not_connected
      | some c ↦
          if remote.has_session c
          then (if remote.runs_command c then none else some command_failed)
          else some session_failed
    ]
