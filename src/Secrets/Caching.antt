-- ===== src/Secrets/Caching.antt =====
-- pkg/secrets/manager.go: what the cache answers, and when.
use text.Mathlib.TextPositions.{eq_refl}
use Prim.Native.String.{◌++◌ as append}
use text.Mathlib.TextLemmas
use forager.Prelude.{
  ℕ, ◌+◌, ◌≡◌, ◌≢◌, true, false, String, none, some, arith, eq_iff, ltb, string_eq, if◌then◌else◌,
  lookup, insert, lookup-insert, Result, ok, err,
}
use forager.Errors.{GoError}
use forager.Secrets.{
  unknown_source, Creds, CacheEntry, Manager, resolve, fetch_failed, cache_key, is_provider,
  fetch_or_hit,
}

module _ (source ref : String) (m : Manager) (not_pushed : source ≢ "cloud_push")
    (not_local : source ≢ "local") where
  -- What a provider gave is answered again, with no call of the provider, until the time to live has
  -- passed since it was cached; from then on the provider is asked anew.
  pub resolve_again :
      (get_secret get_secret' : String → String → Result GoError Creds)
      (now stored_at later stored_later : ℕ) (values : Creds)
      → lookup (cache_key source ref) m.cache ≡ none
      → is_provider source m.providers ≡ true
      → get_secret source ref ≡ ok values
      → (resolve get_secret' later stored_later source ref
          (resolve get_secret now stored_at source ref m).0).1
        ≡ (if ltb later (stored_at + m.cache_ttl)
            then ok values
            else (fetch_or_hit get_secret' stored_later source ref none m).1)
  unfolding resolve
  resolve_again g g' now st later st' values miss prov got =
      let e : CacheEntry = record { values = values; expires = st + m.cache_ttl } in
      let m' : Manager = record m { cache = insert (cache_key source ref) e m.cache } in
      let first : (resolve g now st source ref m).0 ≡ m' =
        ground (arith, eq_iff source "cloud_push", eq_iff source "local") in
      let found : lookup (cache_key source ref) m'.cache ≡ some e = simp (lookup-insert, eq_refl) in
      rw first (ground (arith, found, eq_iff source "cloud_push", eq_iff source "local"))

  -- A failed fetch is returned and caches nothing, and neither does a source with no provider: only
  -- an entry that has expired is dropped.
  pub resolve_failure :
      (get_secret : String → String → Result GoError Creds) (now stored_at : ℕ)
      → lookup (cache_key source ref) m.cache ≡ none
      → ((e : GoError)
          → is_provider source m.providers ≡ true
          → get_secret source ref ≡ err e
          → resolve get_secret now stored_at source ref m ≡ (m, err (fetch_failed e)))
        × (is_provider source m.providers ≡ false
            → resolve get_secret now stored_at source ref m ≡ (m, err unknown_source))
  unfolding resolve
  resolve_failure g now st miss = (
    λ e prov failed. ground (arith, eq_iff source "cloud_push", eq_iff source "local"),
    λ prov. ground (arith, eq_iff source "cloud_push", eq_iff source "local"),
  )

-- The key does not tell a colon of the source from the one that joins it to the reference: two such
-- pairs share their cached credentials.
pub cache_key_shared :
    (a b c : String) → cache_key (append a (append ":" b)) c ≡ cache_key a (append b (append ":" c))
unfolding cache_key
cache_key_shared a b c = simp TextLemmas.append_assoc
