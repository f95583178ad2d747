-- ===== src/Discovery/Proxy/Trusted.antt =====
-- pkg/proxy/discovery/proxy.go: only verified packs are cached and used.
use mathlib.Core.Path.{subst}
use forager.Prelude.{
  ℕ, ◌≡◌, ◌∙◌, refl, inl, inr, Bool-cases, true, Option, Option-cases, none, some, List, [], ◌∷◌,
  Map, arith, ltb, ◌==◌, nat_eq, if◌then◌else◌, Result, Result-cases, ok, err, ◌>>=◌, bind-eq-ok,
  All, All-map, Listed,
}
use forager.Prelude.Int.{ℤ, pos, negsuc}
use forager.Prelude.Bytes.{Bytes}
use forager.Discovery.Params.{Param, int_param}
use forager.Discovery.Pack.{Pack, PackCodecs, parse_and_verify}
use forager.Discovery.Proxy.History.{
  PackOp, configure_op, request_op, close_op, apply_pack_op, run_pack_ops, keys_of,
}
use forager.Discovery.Proxy.{
  Packs, ResolveFailure, mismatch, cached_pack, verify_pack, is_version, load_pack, or_load,
  resolve_version, resolve_pack,
}

-- A pack of this version, from a document that was verified with one of the keys.
pub record IsVerified (lib : PackCodecs) (keys : List Bytes) (n : ℕ) (p : Pack) : Type 0 where
  pub key : Bytes
  pub raw : Bytes
  pub configured : Listed key keys
  pub verified : parse_and_verify lib raw key ≡ ok p
  pub versioned : p.version ≡ pos n

-- The key in use is one of the keys, and all cached packs are verified with these.
pub record IsTrusted (lib : PackCodecs) (keys : List Bytes) (s : Packs) : Type 0 where
  pub has_key : (key : Bytes) → s.pub_key ≡ some key → Listed key keys
  pub packs : All (λ (e : ℕ × Pack). IsVerified lib keys e.0 e.1) s.cached

module _ (lib : PackCodecs) (keys : List Bytes) (files : ℕ → Option Bytes) where
  verify_pack_lem :
      (key : Option Bytes) (raw : Bytes) (p : Pack)
      → verify_pack lib key raw ≡ ok p
      → (k : Bytes) × (key ≡ some k) × (parse_and_verify lib raw k ≡ ok p)
  unfolding verify_pack
  verify_pack_lem none raw p h = ground arith
  verify_pack_lem (some k) raw p h = elim (Result-cases (parse_and_verify lib raw k)) [
    | inl (q, e) ↦ (k, refl, ground arith)
    | inr (q, e) ↦ ground arith
  ]

  is_version_lem : (n : ℕ) (v : ℤ) → is_version n v ≡ true → v ≡ pos n
  is_version_lem n (pos m) h = ground arith
  is_version_lem n (negsuc m) h = ground arith

  load_pack-IsVerified :
      (n : ℕ) (s : Packs) (p : Pack)
      → IsTrusted lib keys s
      → load_pack lib files n s ≡ ok p
      → IsVerified lib keys n p
  unfolding load_pack
  load_pack-IsVerified n s p trusted h = elim (Option-cases (files n)) [
    | inl missing ↦ ground arith
    | inr (raw, read) ↦
        let chain : verify_pack lib s.pub_key raw
              >>= (λ q. if is_version n q.version then ok q else err mismatch)
            ≡ ok p =
          ground arith in
        let (q, verified, rest) =
          bind-eq-ok (verify_pack lib s.pub_key raw)
            (λ q. if is_version n q.version then ok q else err mismatch) chain in
        let (key, has_key, parsed) = verify_pack_lem s.pub_key raw q verified in
        elim (Bool-cases (is_version n q.version)) [
          | inl same ↦
              let e : q ≡ p = ground arith in
              subst (IsVerified lib keys n) e (record {
                key = key;
                raw = raw;
                configured = trusted.has_key key has_key;
                verified = parsed;
                versioned = is_version_lem n q.version same;
              })
          | inr other ↦ ground arith
        ]
  ]

  cached-IsVerified :
      (n : ℕ) (packs : List (ℕ × Pack)) (p : Pack)
      → All (λ (e : ℕ × Pack). IsVerified lib keys e.0 e.1) packs
      → cached_pack n packs ≡ some p
      → IsVerified lib keys n p
  unfolding cached_pack
  cached-IsVerified n [] p h found = ground arith
  cached-IsVerified n ((v, q) ∷ packs) p (h, hs) found = elim (Bool-cases (v == n)) [
    | inl here ↦
        let e : q ≡ p = ground arith in
        let same : v ≡ n = ground arith in
        subst (IsVerified lib keys n) e (subst (λ (m : ℕ). IsVerified lib keys m q) same h)
    | inr later ↦ cached-IsVerified n packs p hs (ground arith)
  ]

  Given : Packs → Option ℤ → Packs × Result ResolveFailure Pack → Type 0
  Given s version (s', result) =
      IsTrusted lib keys s'
      × ((p : Pack) → result ≡ ok p → (n : ℕ) × (version ≡ some (pos n)) × IsVerified lib keys n p)

  cached_or_loaded :
      (n : ℕ) (s : Packs) (found : Option Pack)
      → cached_pack n s.cached ≡ found
      → IsTrusted lib keys s
      → Given s (some (pos n)) (or_load lib files n s found)
  unfolding Given
  cached_or_loaded n s (some q) found h =
      (h, λ p e. (n, refl, cached-IsVerified n s.cached p h.packs (found ∙ ground arith)))
  cached_or_loaded n s none found h = elim (Result-cases (load_pack lib files n s)) [
    | inl (q, loaded) ↦
        let v = load_pack-IsVerified n s q h loaded in
        rw loaded (
          record { has_key = h.has_key; packs = (v, h.packs) },
          λ p e. (n, refl, subst (IsVerified lib keys n) (ground arith) v),
        )
    | inr (why, failed) ↦ rw failed (h, λ p e. ground arith)
  ]

  resolve_version-Given :
      (version : Option ℤ) (s : Packs)
      → IsTrusted lib keys s
      → Given s version (resolve_version lib files version s)
  unfolding Given
  resolve_version-Given none s h = (h, λ p e. ground arith)
  resolve_version-Given (some (negsuc n)) s h = (h, λ p e. ground arith)
  resolve_version-Given (some (pos n)) s h = elim (Bool-cases (ltb 0 n)) [
    | inl positive ↦ rw positive (cached_or_loaded n s (cached_pack n s.cached) refl h)
    | inr zero_version ↦ rw zero_version (h, λ p e. ground arith)
  ]

  -- What a request for a pack leaves in the cache and gives: packs that were verified with one of the
  -- keys, each under the version that it declares, and the one given has the version that the request
  -- names.
  pub resolve_pack-IsTrusted :
      (params : Map Param) (s : Packs)
      → IsTrusted lib keys s
      → IsTrusted lib keys (resolve_pack lib files params s).0
        × ((p : Pack)
            → (resolve_pack lib files params s).1 ≡ ok p
            → (n : ℕ) × (int_param "content_pack_version" params ≡ some (pos n))
              × IsVerified lib keys n p)
  unfolding resolve_pack Given
  resolve_pack-IsTrusted params s h =
      resolve_version-Given (int_param "content_pack_version" params) s h

IsVerified-more :
    (lib : PackCodecs) (key : Bytes) (keys : List Bytes) (e : ℕ × Pack)
    → IsVerified lib keys e.0 e.1
    → IsVerified lib (key ∷ keys) e.0 e.1
IsVerified-more lib key keys e v = record {
  key = v.key;
  raw = v.raw;
  configured = inr v.configured;
  verified = v.verified;
  versioned = v.versioned;
}

run_pack_ops-IsTrusted :
    (lib : PackCodecs) (ops : List PackOp) → IsTrusted lib (keys_of ops) (run_pack_ops lib ops)
unfolding run_pack_ops apply_pack_op
run_pack_ops-IsTrusted lib [] = record { has_key = λ key h. ground arith; packs = tt }
run_pack_ops-IsTrusted lib (configure_op none has_dir ∷ earlier) =
    let h = run_pack_ops-IsTrusted lib earlier in record { has_key = h.has_key; packs = h.packs }
run_pack_ops-IsTrusted lib (configure_op (some key) has_dir ∷ earlier) =
    let h = run_pack_ops-IsTrusted lib earlier in
    record {
      has_key = λ k e. inl (ground arith);
      packs =
          All-map (IsVerified-more lib key (keys_of earlier)) (run_pack_ops lib earlier).cached
            h.packs;
    }
run_pack_ops-IsTrusted lib (request_op files params ∷ earlier) =
    (resolve_pack-IsTrusted lib (keys_of earlier) files params (run_pack_ops lib earlier)
      (run_pack_ops-IsTrusted lib earlier)).0
run_pack_ops-IsTrusted lib (close_op ∷ earlier) =
    let h = run_pack_ops-IsTrusted lib earlier in record { has_key = h.has_key; packs = tt }

-- Whatever calls of `Configure`, requests and calls of `Close` a datasource has carried out, its cache
-- holds only packs that were verified with a key that `Configure` was given, each under the version
-- that it declares; and a pack that the next request gets is one of these or was verified so, and
-- has the version that the request names. The key may be that of an earlier `Configure`: a new key
-- leaves the cache as it is.
pub packs_trusted :
    (lib : PackCodecs) (ops : List PackOp) (files : ℕ → Option Bytes) (params : Map Param)
    → All (λ (e : ℕ × Pack). IsVerified lib (keys_of ops) e.0 e.1) (run_pack_ops lib ops).cached
      × ((p : Pack)
          → (resolve_pack lib files params (run_pack_ops lib ops)).1 ≡ ok p
          → (n : ℕ) × (int_param "content_pack_version" params ≡ some (pos n))
            × IsVerified lib (keys_of ops) n p)
packs_trusted lib ops files params =
    let h = run_pack_ops-IsTrusted lib ops in
    (h.packs, (resolve_pack-IsTrusted lib (keys_of ops) files params (run_pack_ops lib ops) h).1)
