-- ===== src/Secrets/Persistence.antt =====
-- pkg/secrets/cloud_push.go: what a restart finds on disk.
use forager.Prelude.{
  ◌≡◌, refl, String, none, some, arith, if◌then◌else◌, ◌==◌, string_eq, insert, delete,
  lookup-insert, lookup-delete, ok,
}
use forager.Secrets.{
  Creds, CloudPushStore, StoreCodecs, set, get, delete_creds, new_cloud_push_store,
}

-- The disk holds what the store holds in memory, under the key of the secret.
pub record IsSaved (lib : StoreCodecs) (secret : String) (s : CloudPushStore) : Type 0 where
  pub key_is : s.key ≡ lib.derive_key secret
  pub nonce : String
  pub on_disk : s.file ≡ some (lib.seal s.key nonce (lib.marshal s.creds))

module _ (lib : StoreCodecs)
    (open-seal : (key nonce text : String)
      → lib.open_sealed key (lib.seal key nonce text) ≡ some text) where
  restart_saved :
      (secret : String) (s : CloudPushStore)
      → IsSaved lib secret s
      → lib.unmarshal (lib.marshal s.creds) ≡ some s.creds
      → new_cloud_push_store lib s.file secret ≡ ok s
  unfolding new_cloud_push_store
  restart_saved secret s h decodes =
      ground (arith, h.on_disk, h.key_is, open-seal s.key h.nonce (lib.marshal s.creds))

  -- After `Set` or `Delete` wrote the file, a restart with the same access secret, where the sealed
  -- file opens and the map of credentials decodes from what it was marshalled to, gives a store with
  -- the credentials just set, or without those just deleted, and those of every other datasource.
  pub restart_lem :
      (secret nonce id j : String) (creds : Creds) (s : CloudPushStore)
      → s.key ≡ lib.derive_key secret
      → lib.unmarshal (lib.marshal (insert id creds s.creds)) ≡ some (insert id creds s.creds)
      → lib.unmarshal (lib.marshal (delete id s.creds)) ≡ some (delete id s.creds)
      → ((t : CloudPushStore) × (new_cloud_push_store lib
              (set lib none nonce id creds s).0.file
              secret
            ≡ ok t)
          × (get lib j t ≡ (if id == j then some creds else get lib j s)))
        × ((t : CloudPushStore) × (new_cloud_push_store lib
                (delete_creds lib none nonce id s).0.file
                secret
              ≡ ok t)
            × (get lib j t ≡ (if id == j then none else get lib j s)))
  unfolding set get delete_creds
  restart_lem secret nonce id j creds s k d d' =
      let added = (set lib none nonce id creds s).0 in
      let gone = (delete_creds lib none nonce id s).0 in
      (
        (
          added,
          restart_saved secret added (record { key_is = k; nonce = nonce; on_disk = refl }) d,
          lookup-insert id j creds s.creds,
        ),
        (
          gone,
          restart_saved secret gone (record { key_is = k; nonce = nonce; on_disk = refl }) d',
          lookup-delete id j s.creds,
        ),
      )
