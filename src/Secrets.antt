-- ===== src/Secrets.antt =====
-- pkg/secrets: the credential manager with its cache (manager.go) and the store of credentials
-- pushed from the cloud (cloud_push.go).
pub mod Caching
pub mod Persistence
use Prim.Native.String.{◌++◌ as append}
use forager.Prelude.{
  ℕ, ◌+◌, Bool, true, false, ◌||◌, String, Option, none, some, List, [], ◌∷◌, ltb, ◌==◌, string_eq,
  if◌then◌else◌, Map, lookup, insert, delete, Result, ok, err,
}
use forager.Errors.{GoError}

abbrev pub Creds : Type 0
Creds = Map String

pub record CacheEntry : Type 0 where
  pub values : Creds
  pub expires : ℕ

-- The providers are known by their names; `GetSecret` is an argument of `resolve`.
pub record Manager : Type 0 where
  pub providers : List String
  pub cache : Map CacheEntry
  pub cache_ttl : ℕ

-- 5 * time.Minute
abbrev pub default_cache_ttl : ℕ
default_cache_ttl = 300_000_000_000

-- A provider, for `NewManager`: its name and `Available()`.
unfoldable pub available_names : List (String × Bool) → List String
available_names [] = []
available_names ((name, available) ∷ rest) =
    let names = available_names rest in if available then name ∷ names else names

unfoldable pub new_manager : List (String × Bool) → Manager
unfolding available_names
new_manager providers = record {
  providers = available_names providers;
  cache = [];
  cache_ttl = default_cache_ttl;
}

pub data ResolveError : Type 0 where
  resolved_by_caller unknown_source : ResolveError
  fetch_failed : GoError → ResolveError

unfoldable pub cache_key : String → String → String
cache_key source ref = append source (append ":" ref)

abbrev pub is_provider : String → List String → Bool
is_provider name [] = false
is_provider name (p ∷ ps) = p == name || is_provider name ps

-- The cached values that have not expired, if any, and the cache without what has.
abbrev pub cached : ℕ → String → Option CacheEntry → Map CacheEntry → Option Creds × Map CacheEntry
cached now key none cache = (none, cache)
cached now key (some e) cache =
    if ltb now e.expires then (some e.values, cache) else (none, delete key cache)

abbrev pub store_fetched :
    ℕ → String → Manager → Result GoError Creds → Manager × Result ResolveError Creds
store_fetched now key m (err e) = (m, err (fetch_failed e))
store_fetched now key m (ok values) = (
  record m { cache = insert key (record { values = values; expires = now + m.cache_ttl }) m.cache },
  ok values,
)

abbrev pub fetch_or_hit :
    (String → String → Result GoError Creds)
    → ℕ
    → String
    → String
    → Option Creds
    → Manager
    → Manager × Result ResolveError Creds
fetch_or_hit get_secret stored_at source ref (some values) m = (m, ok values)
fetch_or_hit get_secret stored_at source ref none m =
    if is_provider source m.providers
    then store_fetched stored_at (cache_key source ref) m (get_secret source ref)
    else (m, err unknown_source)

-- `now` is the clock at the cache check, and `stored_at` when the result is cached.
unfoldable pub resolve :
    (String → String → Result GoError Creds)
    → ℕ
    → ℕ
    → String
    → String
    → Manager
    → Manager × Result ResolveError Creds
unfolding cache_key
resolve get_secret now stored_at source ref m =
    if source == "cloud_push" || source == "local"
    then (m, err resolved_by_caller)
    else (let key = cache_key source ref in
        let (hit, cache) = cached now key (lookup key m.cache) m.cache in
        fetch_or_hit get_secret stored_at source ref hit (record m { cache = cache }))

unfoldable pub invalidate_cache : String → String → Manager → Manager
unfolding cache_key
invalidate_cache source ref m = record m { cache = delete (cache_key source ref) m.cache }

-- The file of the store: `none` while there is no file.
pub record CloudPushStore : Type 0 where
  pub creds : Map Creds
  pub file : Option String
  pub key : String

-- encoding/json and crypto: SHA-256 of the access secret, marshalling, and AES-GCM with a nonce. A
-- write to disk gives an error or nothing.
pub record StoreCodecs : Type 0 where
  pub derive_key : String → String
  pub marshal : Map Creds → String
  pub unmarshal : String → Option (Map Creds)
  -- key, nonce, plaintext
  pub seal : String → String → String → String
  -- key, file
  pub open_sealed : String → String → Option String

pub data StoreError : Type 0 where
  decrypting unmarshalling : StoreError
  writing : GoError → StoreError

module _ (lib : StoreCodecs) where
  -- `write_err` is the error of `os.MkdirAll` or `os.WriteFile`, if any.
  unfoldable pub save_to_disk :
      Option GoError → String → CloudPushStore → CloudPushStore × Option StoreError
  save_to_disk (some e) nonce s = (s, some (writing e))
  save_to_disk none nonce s =
      (record s { file = some (lib.seal s.key nonce (lib.marshal s.creds)) }, none)

  unfoldable pub set :
      Option GoError → String → String → Creds → CloudPushStore → CloudPushStore × Option StoreError
  unfolding save_to_disk
  set write_err nonce id creds s =
      save_to_disk write_err nonce (record s { creds = insert id creds s.creds })

  unfoldable pub get : String → CloudPushStore → Option Creds
  get id s = lookup id s.creds

  unfoldable pub delete_creds :
      Option GoError → String → String → CloudPushStore → CloudPushStore × Option StoreError
  unfolding save_to_disk
  delete_creds write_err nonce id s =
      save_to_disk write_err nonce (record s { creds = delete id s.creds })

  unfoldable pub load_from_disk : String → String → Result StoreError (Map Creds)
  load_from_disk key file = elim (lib.open_sealed key file) [
    | none ↦ err decrypting
    | some text ↦ elim (lib.unmarshal text) [ none ↦ err unmarshalling | some creds ↦ ok creds ]
  ]

  -- A store over what the disk holds; a file that is not there is no error.
  unfoldable pub new_cloud_push_store : Option String → String → Result StoreError CloudPushStore
  unfolding load_from_disk
  new_cloud_push_store none access_secret =
      ok (record { creds = []; file = none; key = lib.derive_key access_secret })
  new_cloud_push_store (some file) access_secret =
      elim (load_from_disk (lib.derive_key access_secret) file) [
        | err e ↦ err e
        | ok creds ↦
            ok (record { creds = creds; file = some file; key = lib.derive_key access_secret })
      ]
