-- ===== src/Tests/SecretsTests.antt =====
-- pkg/secrets and ssh_access.go.
use forager.Prelude.{
  ◌+◌, ◌≡◌, ◌≢◌, refl, Bool, true, String, none, some, [], ◌∷◌, arith, eq_iff, ltb, ◌==◌, string_eq,
  if◌then◌else◌, Map, lookup, insert, delete, Result, ok,
}
use forager.Errors.{GoError}
use forager.Secrets.{
  Creds, Manager, new_manager, resolve, CloudPushStore, StoreCodecs, set, get, delete_creds,
  new_cloud_push_store, fetch_or_hit,
}
use forager.Secrets.Caching.{resolve_again}
use forager.Secrets.Persistence.{restart_lem}
use forager.Values.{Value, str, strings}
use forager.Discovery.SshAccess.{
  ssh_access_config, ssh_access_config_lem, string_of, string_slice, access_config,
}

abbrev secret : Creds
secret = ("password", "p") ∷ []

abbrev manager : Manager
manager = new_manager (("vault", true) ∷ [])

abbrev fetch : String → String → Result GoError Creds
fetch source ref = ok secret

abbrev fetch' : String → String → Result GoError Creds
fetch' source ref = ok []

vault_not_pushed : ◌≢◌ {A = String} "vault" "cloud_push"
vault_not_pushed = ground (arith, eq_iff "vault" "cloud_push")

vault_not_local : ◌≢◌ {A = String} "vault" "local"
vault_not_local = ground (arith, eq_iff "vault" "local")

resolve_again_example :
    (resolve fetch' 50 50 "vault" "db" (resolve fetch 10 10 "vault" "db" manager).0).1 ≡ (
      if ltb 50 (10 + manager.cache_ttl)
      then ok secret
      else (fetch_or_hit fetch' 50 "vault" "db" none manager).1)
unfolding lookup new_manager
resolve_again_example =
    resolve_again "vault" "db" manager vault_not_pushed vault_not_local fetch fetch' 10 10 50 50
      secret refl refl refl

abbrev with_a : Map Creds
with_a = ("a", secret) ∷ []

abbrev codecs : StoreCodecs
codecs = record {
  derive_key = λ s. s;
  marshal = λ m. elim m [ [] ↦ "empty" | _ ∷ _ ↦ "one" ];
  unmarshal = λ t. if t == "empty" then some [] else some with_a;
  seal = λ key nonce text. text;
  open_sealed = λ key file. some file;
}

abbrev store : CloudPushStore
store = record { creds = []; file = none; key = "access" }

abbrev AfterRestart : String → Type 0
AfterRestart j =
    ((t : CloudPushStore) × (new_cloud_push_store codecs
          (set codecs none "nonce" "a" secret store).0.file "access"
        ≡ ok t)
      × (get codecs j t ≡ (if ◌==◌ {T = String} "a" j then some secret else get codecs j store)))
    × ((t : CloudPushStore) × (new_cloud_push_store codecs
            (delete_creds codecs none "nonce" "a" store).0.file "access"
          ≡ ok t)
        × (get codecs j t ≡ (if ◌==◌ {T = String} "a" j then none else get codecs j store)))

restart_lem_example : AfterRestart "a"
unfolding insert delete
restart_lem_example =
    restart_lem codecs (λ key nonce text. refl) "access" "nonce" "a" "a" secret store refl refl refl

abbrev config : Map Value
config =
    ("known_hosts_file", str "/etc/hosts") ∷ ("allowed_cidrs", strings ("10.0.0.0/8" ∷ [])) ∷ []

abbrev access : Map Value
access = access_config ("10.0.0.0/8" ∷ []) "/etc/hosts" config

ssh_access_config_lem_example :
    (◌≡◌ {A = Bool} true true)
    × (string_of (lookup "known_hosts" access) ≢ "")
    × (lookup "known_hosts" access ≡ lookup "known_hosts_file" config)
    × (string_slice (lookup "allowed_cidrs" config) ≢ [])
    × (lookup "allowed_hosts" access
        ≡ some (strings (string_slice (lookup "allowed_cidrs" config))))
unfolding ssh_access_config lookup
ssh_access_config_lem_example = ssh_access_config_lem config access true refl
