-- ===== src/Handler/Sync.antt =====
-- pkg/ws/handler.go: `newProxyByType`, `handleConfigSync` and `handleTestDatasourceConfig`.
use Prim.Native.String.{◌++◌ as append}
use text.Mathlib.Text.{starts_with}
use forager.Prelude.{
  ◌+◌, Bool, true, false, not, ◌&&◌, ◌||◌, String, Option, none, some, List, [], ◌∷◌, ◌++◌, ◌==◌,
  string_eq, if◌then◌else◌, Map, lookup, insert, Result, ok, err, is_some,
}
use forager.Errors.{GoError}
use forager.Registry
use forager.Registry.{Registry, Proxy, DatasourceEntry}
use forager.Secrets
use forager.Secrets.{Creds}
use forager.Signing.Verifier.{Verifier}
use forager.Values.{Value, str, strings, normalize_config_values}
use forager.Discovery.SshAccess.{
  ssh_access_suffix, ssh_access_enabled, ssh_access_config, string_of,
}
use forager.Handler.{Datasource, Reply, sync_ack, test_result, State, World}

-- The module that serves a proxy type; `db_proxy` carries its database type.
pub data Module : Type 0 where
  http_proxy mcp_proxy ssh_proxy mongo_proxy redis_proxy kafka_proxy discovery_proxy : Module
  db_proxy : String → Module

abbrev pub db_type : Map Value → String → String
db_type config ds_type =
    let t = string_of (lookup "db_type" config) in if t == "" then ds_type else t

abbrev pub with_hosts : List String → Map Value → Map Value
with_hosts [] config = config
with_hosts (h ∷ hs) config = insert "allowed_hosts" (strings (h ∷ hs)) config

abbrev pub with_cidrs : List String → Map Value → Map Value
with_cidrs [] config = config
with_cidrs (h ∷ hs) config =
    if is_some (lookup "allowed_cidrs" config)
    then config
    else insert "allowed_cidrs" (strings (h ∷ hs)) config

-- The module, and the configuration as it was changed; `none` is an unknown proxy type.
unfoldable pub new_proxy_by_type :
    String → String → Map Value → List String → Option (Module × Map Value)
new_proxy_by_type proxy_type ds_type config allowed_hosts =
    if proxy_type == "http-proxy"
    then some (http_proxy, insert "datasource_type" (str ds_type) config)
    else if proxy_type == "db-proxy"
    then some (db_proxy (db_type config ds_type), config)
    else if proxy_type == "mcp-proxy"
    then some (mcp_proxy, config)
    else if proxy_type == "ssh-proxy"
    then some (ssh_proxy, with_hosts allowed_hosts config)
    else if proxy_type == "mongo-proxy"
    then some (mongo_proxy, config)
    else if proxy_type == "redis-proxy"
    then some (redis_proxy, config)
    else if proxy_type == "kafka-proxy"
    then some (kafka_proxy, config)
    else if proxy_type == "discovery-proxy"
    then some (discovery_proxy, with_cidrs allowed_hosts config)
    else none

abbrev pub signing_enabled : Option Verifier → Bool
signing_enabled none = false
signing_enabled (some v) = v.enabled

abbrev pub non_empty_creds : Creds → Bool
non_empty_creds [] = false
non_empty_creds (_ ∷ _) = true

abbrev pub or_creds : Option Creds → Creds → Creds
or_creds none creds = creds
or_creds (some stored) creds = stored

abbrev pub creds_of : {E : Type 0} → Result E Creds → Option Creds
creds_of (ok creds) = some creds
creds_of (err _) = none

abbrev pub kept_creds : {E : Type 0} → Option E → Creds → Option Creds
kept_creds none creds = some creds
kept_creds (some _) creds = none

abbrev pub is_member : String → List String → Bool
is_member id [] = false
is_member id (j ∷ ids) = j == id || is_member id ids

module _ (w : World) where
  abbrev pub resolve_source : String → String → State → State × Option Creds
  resolve_source source ref s =
      let (m, r) = Secrets.resolve w.get_secret w.now w.now source ref s.secrets in
      (record s { secrets = m }, creds_of r)

  -- The credentials of a pushed datasource; `none` where the loop goes on to the next one.
  unfoldable pub resolve_creds : Datasource → State → State × Option Creds
  resolve_creds ds s =
      if ds.credential_source == "cloud_push" && non_empty_creds ds.credentials
      then (let (store, e) =
            Secrets.set w.codecs (w.write_err ds.id) (w.file_nonce ds.id) ds.id ds.credentials
              s.store in
          (record s { store = store }, kept_creds e ds.credentials))
      else if ds.credential_source == "cloud_push"
      then (s, some (or_creds (Secrets.get w.codecs ds.id s.store) ds.credentials))
      else if ds.credential_source == "local"
      then (s, some ds.credentials)
      else resolve_source ds.credential_source ds.credential_ref s

  abbrev pub entry_of : Datasource → DatasourceEntry
  entry_of ds = record {
    id = ds.id;
    type = ds.type;
    proxy_type = ds.proxy_type;
    name = ds.name;
    credential_source = ds.credential_source;
    credential_ref = ds.credential_ref;
  }

  abbrev pub sibling_id : String → String
  sibling_id id = append id ssh_access_suffix

  abbrev pub sibling_entry : DatasourceEntry → DatasourceEntry
  sibling_entry e = record {
    id = sibling_id e.id;
    type = "ssh";
    proxy_type = "ssh-proxy";
    name = append e.name "-ssh";
    credential_source = e.credential_source;
    credential_ref = e.credential_ref;
  }

  abbrev pub register : String → DatasourceEntry → Proxy → State → State
  register id entry p s = record s { registry = Registry.register id entry p s.registry }

  -- Each step returns the identifiers that it adds to `newIDs`.
  abbrev pub add_configured : Option GoError → DatasourceEntry → Proxy → State → State × List String
  add_configured (some _) sibling p s = (s, [])
  add_configured none sibling p s = (register sibling.id sibling p s, sibling.id ∷ [])

  -- `SSHAccessSibling`, and the registration of what it built.
  unfoldable pub add_sibling : Datasource → Map Value → Creds → State → State × List String
  add_sibling ds config creds s =
      if ds.proxy_type == "discovery-proxy" && ssh_access_enabled config
      then elim (ssh_access_config config (signing_enabled s.verifier)) [
        | err _ ↦ (s, [])
        | ok ssh_config ↦
            let p = w.new_proxy (sibling_id ds.id) "ssh-proxy" in
            add_configured (w.configure p ssh_config creds) (sibling_entry (entry_of ds)) p s
      ]
      else (s, [])

  abbrev pub add_main :
      Option GoError → Datasource → Map Value → Creds → Proxy → State → State × List String
  add_main (some _) ds config creds p s = (s, [])
  add_main none ds config creds p s = add_sibling ds config creds (register ds.id (entry_of ds) p s)

  abbrev pub configure_with :
      Option (Module × Map Value) → Datasource → Creds → State → State × List String
  configure_with none ds creds s = (s, [])
  configure_with (some (_, config)) ds creds s =
      let p = w.new_proxy ds.id ds.proxy_type in
      add_main (w.configure p config creds) ds config creds p s

  unfoldable pub configure_datasource : Datasource → Creds → State → State × List String
  configure_datasource ds creds s =
      configure_with
        (new_proxy_by_type ds.proxy_type ds.type (normalize_config_values ds.config)
          ds.allowed_hosts)
        ds creds s

  abbrev pub with_creds : Datasource → Option Creds → State → State × List String
  with_creds ds none s = (s, [])
  with_creds ds (some creds) s = configure_datasource ds creds s

  -- One round of the loop over the pushed datasources.
  unfoldable pub sync_one : Datasource → State → State × List String
  sync_one ds s =
      let (s', creds) = resolve_creds ds s in
      let (s'', more) = with_creds ds creds s' in (s'', ds.id ∷ more)

  unfoldable pub sync_all : List Datasource → List String → State → State × List String
  sync_all [] new_ids s = (s, new_ids)
  sync_all (ds ∷ rest) new_ids s =
      let (s', more) = sync_one ds s in sync_all rest (more ++ new_ids) s'

  abbrev pub is_kept : List String → String → Bool
  is_kept new_ids id = is_member id new_ids || starts_with id "local:"

  -- The loop over `registry.All()`; the error of `Remove` is dropped.
  unfoldable pub remove_stale : List String → List String → Registry → Registry
  remove_stale new_ids [] r = r
  remove_stale new_ids (id ∷ ids) r =
      remove_stale new_ids ids (if is_kept new_ids id then r else (Registry.remove w.close id r).0)

  unfoldable pub apply_push : List Datasource → State → State
  apply_push datasources s =
      let (s', new_ids) = sync_all datasources [] s in
      record s' {
        registry = remove_stale new_ids (Registry.all s'.registry) s'.registry;
        synced = s'.synced + 1;
      }

  -- An error is a push that does not decode.
  unfoldable pub handle_config_sync : String → String → State → State × Option Reply
  handle_config_sync msg request_id s = elim (w.unmarshal_push msg) [
    | none ↦ (s, none)
    | some datasources ↦ (apply_push datasources s, some (sync_ack request_id))
  ]

  abbrev pub uses_provider : String → Bool
  uses_provider source = not (source == "local" || source == "cloud_push" || source == "")

  unfoldable pub test_creds : Datasource → State → State × Option Creds
  test_creds ds s =
      if uses_provider ds.credential_source
      then resolve_source ds.credential_source ds.credential_ref s
      else (s, some ds.credentials)

  -- The temporary proxy is configured and closed; it is never registered.
  abbrev pub try_config : Datasource → Creds → State → State × Bool
  try_config ds creds s =
      elim (new_proxy_by_type ds.proxy_type ds.type (normalize_config_values ds.config)
        ds.allowed_hosts) [
          | none ↦ (s, false)
          | some (_, config) ↦
              let p = w.new_proxy "" ds.proxy_type in
              (
                record s { registry = record s.registry { closed = p ∷ s.registry.closed } },
                not (is_some (w.configure p config creds)),
              )
        ]

  abbrev pub test_with : Datasource → Option Creds → State → State × Bool
  test_with ds none s = (s, false)
  test_with ds (some creds) s = try_config ds creds s

  unfoldable pub handle_test_datasource_config : String → String → State → State × Option Reply
  handle_test_datasource_config msg request_id s = elim (w.unmarshal_test msg) [
    | none ↦ (s, none)
    | some ds ↦
        let (s', creds) = test_creds ds s in
        let (s'', success) = test_with ds creds s' in (s'', some (test_result request_id success))
  ]
