-- ===== src/Discovery/Pack/Valid.antt =====
-- pkg/proxy/discovery/pack.go: what is checked of a pack that is accepted.
use mathlib.Core.Path.{subst}
use forager.Prelude.{
  ℕ, ◌≤◌, ◌≡◌, ◌≢◌, refl, Bool, Bool-cases, true, false, not, ◌⊎◌, inl, inr, List, [], ◌∷◌,
  Option-cases, some, arith, ltb, not_ltb→le, ◌==◌, nat_eq, length, Result, ok, ◌>>=◌, ◌>>◌, All,
  All-map, bind-eq-ok, sym, ap, ◌∙◌, Result-cases,
}
use forager.Prelude.Bytes.{Bytes, codes, bytes_eq, bytes_beq_iff, trim_space}
use forager.Discovery.When.{WhenExpr, parse_when}
use forager.Discovery.Pack.{
  Collector, Pack, PackCodecs, PackError, max_pack_bytes, split_signature_line, signed_bytes,
  is_positive, is_seen, with_guard, check_collector, check_collectors, is_empty, validate, or_fail,
  fail_if, parse_and_verify, verify_decoded, empty_pack, too_large, not_yaml, signature_lines,
}

-- The guard was parsed when the pack was loaded, or there is none.
abbrev pub IsGuarded : Collector → Type 0
IsGuarded c = (c.when ≡ []) ⊎ ((e : WhenExpr) × (parse_when c.when ≡ ok e) × (c.expr ≡ some e))

pub record IsUsable (c : Collector) : Type 0 where
  pub named : c.id ≢ []
  pub runs : trim_space c.cmd ≢ []
  pub guarded : IsGuarded c

abbrev pub AreDistinct : List Collector → Type 0
AreDistinct [] = Unit
AreDistinct (c ∷ cs) = All (λ d. d.id ≢ c.id) cs × AreDistinct cs

pub record IsValid (p : Pack) : Type 0 where
  pub versioned : is_positive p.version ≡ true
  pub inventory : p.kind ≡ codes "inventory"
  pub some_collector : p.collectors ≢ []
  pub usable : All IsUsable p.collectors
  pub distinct : AreDistinct p.collectors

with_guard_lem :
    (c c' : Collector) → with_guard c ≡ ok c' → (c'.id ≡ c.id) × (c'.cmd ≡ c.cmd) × IsGuarded c'
unfolding with_guard
with_guard_lem c c' h = elim (Bool-cases (c.when == [])) [
  | inl blank ↦
      let same : c ≡ c' = ground arith in
      (
        ground arith,
        ground arith,
        inl (sym (ap (λ (x : Collector). x.when) same) ∙ (bytes_beq_iff c.when []).0 blank),
      )
  | inr guarded ↦ elim (Result-cases (parse_when c.when)) [
    | inl (e, parsed) ↦
        let same : record c { expr = some e } ≡ c' = ground arith in
        (
          ground arith,
          ground arith,
          inr (e, ap parse_when (sym (ap (λ (x : Collector). x.when) same)) ∙ parsed, ground arith),
        )
    | inr (e, failed) ↦ ground arith
  ]
]

check_collector_lem :
    (seen : List Bytes) (c c' : Collector)
    → check_collector seen c ≡ ok c'
    → (c'.id ≡ c.id) × IsUsable c' × (is_seen c.id seen ≡ false)
unfolding check_collector
check_collector_lem seen c c' h =
    let fresh : is_seen c.id seen ≡ false = ground arith in
    let done : with_guard c ≡ ok c' = ground arith in
    let (same_id, same_cmd, guarded) = with_guard_lem c c' done in
    (
      same_id,
      record {
        named = rw same_id (ground (arith, bytes_beq_iff c.id []));
        runs = rw same_cmd (ground (arith, bytes_beq_iff (trim_space c.cmd) []));
        guarded = guarded;
      },
      fresh,
    )

not_seen :
    (id j : Bytes) (seen : List Bytes)
    → is_seen id (j ∷ seen) ≡ false
    → (id ≢ j) × (is_seen id seen ≡ false)
unfolding is_seen
not_seen id j seen h = ground (arith, bytes_beq_iff j id)

-- What the loop over the collectors gives, behind those seen.
abbrev AreChecked : List Bytes → List Collector → Type 0
AreChecked seen cs =
    All IsUsable cs × AreDistinct cs × All (λ (d : Collector). is_seen d.id seen ≡ false) cs

check_collectors_lem :
    (seen : List Bytes) (cs cs' : List Collector)
    → check_collectors seen cs ≡ ok cs'
    → AreChecked seen cs'
unfolding check_collectors
check_collectors_lem seen [] cs' h =
    let same : [] ≡ cs' = ground arith in subst (AreChecked seen) same (tt, tt, tt)
check_collectors_lem seen (c ∷ cs) cs' h =
    let (c', checked, rest) =
      bind-eq-ok (check_collector seen c)
        (λ c'. check_collectors (c.id ∷ seen) cs >>= (λ cs'. ok (c' ∷ cs'))) h in
    let (later, checked_later, end) =
      bind-eq-ok (check_collectors (c.id ∷ seen) cs) (λ cs'. ok (c' ∷ cs')) rest in
    let (same_id, usable, fresh) = check_collector_lem seen c c' checked in
    let (usables, distinct, unseen) = check_collectors_lem (c.id ∷ seen) cs later checked_later in
    let same : c' ∷ later ≡ cs' = ground arith in
    subst (AreChecked seen) same (
      (usable, usables),
      (
        All-map (λ (d : Collector) u. rw same_id ((not_seen d.id c.id seen u).0)) later unseen,
        distinct,
      ),
      (rw same_id fresh, All-map (λ (d : Collector) u. (not_seen d.id c.id seen u).1) later unseen),
    )

checked_ne :
    (cs cs' : List Collector) → is_empty cs ≡ false → check_collectors [] cs ≡ ok cs' → cs' ≢ []
unfolding check_collectors
checked_ne [] cs' h k e = ground arith
checked_ne (c ∷ cs) cs' h k e =
    let (c', checked, rest) =
      bind-eq-ok (check_collector [] c)
        (λ c'. check_collectors (c.id ∷ []) cs >>= (λ cs'. ok (c' ∷ cs'))) k in
    let (later, checked_later, end) =
      bind-eq-ok (check_collectors (c.id ∷ []) cs) (λ cs'. ok (c' ∷ cs')) rest in
    cc

validate-IsValid : (p q : Pack) → validate p ≡ ok q → IsValid q
unfolding validate
validate-IsValid p q h =
    let checks : check_collectors [] p.collectors >>= (λ cs. ok (record p { collectors = cs }))
        ≡ ok q =
      ground arith in
    let (cs, checked, end) =
      bind-eq-ok (check_collectors [] p.collectors) (λ cs. ok (record p { collectors = cs }))
        checks in
    let (usable, distinct, _) = check_collectors_lem [] p.collectors cs checked in
    let same : record p { collectors = cs } ≡ q = ground arith in
    subst IsValid same (record {
      versioned = ground arith;
      inventory = ground (arith, bytes_beq_iff p.kind (codes "inventory"));
      some_collector = λ none_left. checked_ne p.collectors cs (ground arith) checked none_left;
      usable = usable;
      distinct = distinct;
    })

-- The checks that an accepted document passed. Its pack is the decoded one, with the guards parsed.
pub record IsAccepted (lib : PackCodecs) (raw pub_key : Bytes) (p : Pack) : Type 0 where
  pub decoded : Pack
  pub signature : Bytes
  pub bounded : length raw ≤ max_pack_bytes
  pub one_line : (split_signature_line raw).1 ≡ 1
  pub is_yaml : lib.unmarshal_yaml raw ≡ some decoded
  pub is_base64 : lib.decode_base64 decoded.signature ≡ some signature
  pub authentic : lib.ed25519_verify pub_key (signed_bytes raw) signature ≡ true
  pub validated : validate decoded ≡ ok p
  pub valid : IsValid p

verify_decoded_lem :
    (lib : PackCodecs) (body pub_key : Bytes) (q p : Pack)
    → verify_decoded lib body pub_key q ≡ ok p
    → (sig : Bytes) × (lib.decode_base64 q.signature ≡ some sig)
      × (lib.ed25519_verify pub_key body sig ≡ true)
      × (validate q ≡ ok p)
unfolding verify_decoded
verify_decoded_lem lib body pub_key q p h = elim (Option-cases (lib.decode_base64 q.signature)) [
  | inl missing ↦ ground arith
  | inr (sig, base64) ↦ (sig, base64, ground arith, ground arith)
]

is_one : (n : ℕ) → not (n == 1) ≡ false → n ≡ 1
is_one n h = ground arith

passed :
    (first second third : Bool) (e e' e'' : PackError) (m : Result PackError Pack) {p : Pack}
    → (fail_if first e >> (fail_if second e' >> (fail_if third e'' >> m))) ≡ ok p
    → (second ≡ false) × (third ≡ false) × (m ≡ ok p)
passed true second third e e' e'' m h = ground arith
passed false true third e e' e'' m h = ground arith
passed false false true e e' e'' m h = ground arith
passed false false false e e' e'' m h = (refl, refl, h)

-- A document that is accepted as a pack has at most 2^20 bytes and exactly one signature line, its
-- signature is one of its other lines under the key, and its pack has a positive version, the kind
-- that is known, and collectors with distinct identifiers, a command and a guard that parses.
pub parse_and_verify-IsAccepted :
    (lib : PackCodecs) (raw pub_key : Bytes) (p : Pack)
    → parse_and_verify lib raw pub_key ≡ ok p
    → IsAccepted lib raw pub_key p
unfolding parse_and_verify signed_bytes
parse_and_verify-IsAccepted lib raw pub_key p h =
    let n = (split_signature_line raw).1 in
    let (small, one, rest) =
      passed (is_empty raw) (ltb max_pack_bytes (length raw)) (not (n == 1)) empty_pack too_large
        (signature_lines n)
        (or_fail not_yaml (lib.unmarshal_yaml raw)
          >>= verify_decoded lib (split_signature_line raw).0 pub_key)
        h in
    elim (Option-cases (lib.unmarshal_yaml raw)) [
      | inl missing ↦ ground arith
      | inr (q, yaml) ↦
          let decoded : verify_decoded lib (split_signature_line raw).0 pub_key q ≡ ok p =
            rw (← rest) (rw yaml refl) in
          let (sig, base64, authentic, done) =
            verify_decoded_lem lib (split_signature_line raw).0 pub_key q p decoded in
          record {
            decoded = q;
            signature = sig;
            bounded = not_ltb→le max_pack_bytes (length raw) small;
            one_line = is_one n one;
            is_yaml = yaml;
            is_base64 = base64;
            authentic = authentic;
            validated = done;
            valid = validate-IsValid q p done;
          }
    ]
