-- ===== src/Discovery/Sweep/Complete.antt =====
-- pkg/proxy/discovery/sweep.go: how many addresses a sweep has, and that it misses none.
use mathlib.Core.Path.{subst}
use native.Mathlib.Nat.{one-le-pow, two-pow-succ}
use native.Mathlib.Decide.{dec_lt}
use forager.Prelude.{
  ℕ, zero, suc, ◌+◌, ◌-◌, ◌^◌, ◌≤◌, ◌<◌, ◌≡◌, inl, inr, Bool-cases, true, false, List, [], ◌∷◌,
  ◌++◌, arith, leb, ◌==◌, nat_eq, if◌then◌else◌, ok, length, length-append, Listed, Listed-left,
  Listed-last,
}
use forager.Discovery.Sweep.{
  Prefix, max_sweep_addresses, size, first_addr, is_excluded, Expansion, is_edge, visit,
  expand_from, expand_all, expand_cidrs,
}
use forager.Discovery.Sweep.Scope.{IsProbed, total}

four-le-pow : (k : ℕ) → 2 ≤ k → 4 ≤ 2 ^ k
four-le-pow zero h = absurd (omega arith)
four-le-pow (suc zero) h = absurd (omega arith)
four-le-pow (suc (suc k)) h =
    omega (arith, two-pow-succ (suc k), two-pow-succ k, one-le-pow k 2 (omega arith))

size_lem : (cidr : Prefix) → (1 ≤ size cidr) × (leb cidr.bits 30 ≡ true → 4 ≤ size cidr)
size_lem cidr =
    (one-le-pow (32 - cidr.bits) 2 (omega arith), λ h. four-le-pow (32 - cidr.bits) (ground arith))

-- What the rounds from place `i` on count.
abbrev counted : Prefix → ℕ → ℕ → ℕ
counted cidr i n = if leb cidr.bits 30 then (if i == 0 then n - 2 else n - 1) else n

visit_count :
    (cidr : Prefix) (exclusions : List Prefix) (i addr : ℕ) (e : Expansion)
    → length (visit cidr exclusions i addr e).addrs + (visit cidr exclusions i addr e).excluded
      ≡ length e.addrs + e.excluded + (if is_edge cidr i then 0 else 1)
visit_count cidr exclusions i addr e = ground (arith, length-append e.addrs (addr ∷ []))

expand_from_count :
    (cidr : Prefix) (exclusions : List Prefix) (n i addr : ℕ) (e : Expansion)
    → i + n ≡ size cidr
    → length (expand_from cidr exclusions n i addr e).addrs
        + (expand_from cidr exclusions n i addr e).excluded
      ≡ length e.addrs + e.excluded + counted cidr i n
unfolding expand_from
expand_from_count cidr exclusions zero i addr e end = ground (arith)
expand_from_count cidr exclusions (suc n) i addr e end = ground (
  arith,
  visit_count cidr exclusions i addr e,
  (size_lem cidr).1,
  expand_from_count cidr exclusions n (i + 1) (addr + 1) (visit cidr exclusions i addr e),
)

expand_all_count :
    (exclusions cidrs : List Prefix) (e e' : Expansion)
    → expand_all cidrs exclusions e ≡ ok e'
    → length e'.addrs + e'.excluded ≡ length e.addrs + e.excluded + total cidrs
unfolding expand_all
expand_all_count exclusions [] e e' k = ground arith
expand_all_count exclusions (cidr ∷ cidrs) e e' k = ground (
  arith,
  size_lem cidr,
  expand_from_count cidr exclusions (size cidr) 0 (first_addr cidr) e,
  expand_all_count exclusions cidrs (expand_from cidr exclusions (size cidr) 0 (first_addr cidr) e)
      e',
)

expand_from_growth :
    (cidr : Prefix) (exclusions : List Prefix) (n i addr : ℕ) (e : Expansion)
    → length (expand_from cidr exclusions n i addr e).addrs ≤ length e.addrs + n
unfolding expand_from
expand_from_growth cidr exclusions zero i addr e = omega arith
expand_from_growth cidr exclusions (suc n) i addr e = ground (
  arith,
  visit_grows,
  expand_from_growth cidr exclusions n (i + 1) (addr + 1) (visit cidr exclusions i addr e),
)
  where
    visit_grows : length (visit cidr exclusions i addr e).addrs ≤ length e.addrs + 1
    visit_grows = ground (arith, length-append e.addrs (addr ∷ []))

expand_all_bounded :
    (exclusions cidrs : List Prefix) (e e' : Expansion)
    → length e.addrs ≤ max_sweep_addresses
    → expand_all cidrs exclusions e ≡ ok e'
    → length e'.addrs ≤ max_sweep_addresses
unfolding expand_all
expand_all_bounded exclusions [] e e' le k = ground arith
expand_all_bounded exclusions (cidr ∷ cidrs) e e' le k =
    expand_all_bounded exclusions cidrs
      (expand_from cidr exclusions (size cidr) 0 (first_addr cidr) e) e'
      (ground (arith, expand_from_growth cidr exclusions (size cidr) 0 (first_addr cidr) e))
      (ground arith)

module _ (cidr : Prefix) (exclusions : List Prefix) (a : ℕ) where
  visit_keeps :
      (i addr : ℕ) (e : Expansion)
      → Listed a e.addrs
      → Listed a (visit cidr exclusions i addr e).addrs
  visit_keeps i addr e h = elim (Bool-cases (is_edge cidr i)) [
    | inl edge ↦ rw edge h
    | inr inside ↦ elim (Bool-cases (is_excluded addr exclusions)) [
      | inl out ↦ rw (inside, out) h
      | inr probed ↦ rw (inside, probed) (Listed-left a e.addrs (addr ∷ []) h)
    ]
  ]

  expand_from_keeps :
      (n i addr : ℕ) (e : Expansion)
      → Listed a e.addrs
      → Listed a (expand_from cidr exclusions n i addr e).addrs
  unfolding expand_from
  expand_from_keeps zero i addr e h = h
  expand_from_keeps (suc n) i addr e h =
      expand_from_keeps n (i + 1) (addr + 1) (visit cidr exclusions i addr e)
        (visit_keeps i addr e h)

  -- The rounds from place `i` on reach the place `k` behind it.
  expand_from_reaches :
      (n i addr k : ℕ) (e : Expansion)
      → addr ≡ first_addr cidr + i
      → i ≤ k
      → k < i + n
      → is_edge cidr k ≡ false
      → a ≡ first_addr cidr + k
      → is_excluded a exclusions ≡ false
      → Listed a (expand_from cidr exclusions n i addr e).addrs
  unfolding expand_from
  expand_from_reaches zero i addr k e start low high inside at probed = absurd (omega arith)
  expand_from_reaches (suc n) i addr k e start low high inside at probed = elim (dec_lt i k) [
    | yes later ↦
        expand_from_reaches n (i + 1) (addr + 1) k (visit cidr exclusions i addr e) (omega arith)
          (omega arith) (omega arith) inside at probed
    | no here ↦
        let same : k ≡ i = omega arith in
        let inside_here : is_edge cidr i ≡ false =
          subst (λ t. is_edge cidr t ≡ false) same inside in
        let place : a ≡ addr = omega arith in
        let probed_here : is_excluded addr exclusions ≡ false =
          subst (λ t. is_excluded t exclusions ≡ false) place probed in
        expand_from_keeps n (i + 1) (addr + 1) (visit cidr exclusions i addr e) (
          rw (inside_here, probed_here)
            (subst (λ t. Listed a (e.addrs ++ (t ∷ []))) place (Listed-last a e.addrs)))
  ]

expand_all_keeps :
    (a : ℕ) (exclusions cidrs : List Prefix) (e e' : Expansion)
    → Listed a e.addrs
    → expand_all cidrs exclusions e ≡ ok e'
    → Listed a e'.addrs
unfolding expand_all
expand_all_keeps a exclusions [] e e' h k =
    let same : e ≡ e' = ground arith in subst (λ (x : Expansion). Listed a x.addrs) same h
expand_all_keeps a exclusions (cidr ∷ cidrs) e e' h k =
    expand_all_keeps a exclusions cidrs
      (expand_from cidr exclusions (size cidr) 0 (first_addr cidr) e) e'
      (expand_from_keeps cidr exclusions a (size cidr) 0 (first_addr cidr) e h) (ground arith)

expand_all_reaches :
    (a : ℕ) (exclusions cidrs : List Prefix) (e e' : Expansion)
    → IsProbed cidrs exclusions a
    → expand_all cidrs exclusions e ≡ ok e'
    → Listed a e'.addrs
unfolding expand_all
expand_all_reaches a exclusions [] e e' (inside, probed) k = absurd inside
expand_all_reaches a exclusions (cidr ∷ cidrs) e e' (inl (i, below, inner, at), probed) k =
    let reached =
      expand_from_reaches cidr exclusions a (size cidr) 0 (first_addr cidr) i e (omega arith)
        (omega arith) (omega arith) inner at probed in
    expand_all_keeps a exclusions cidrs
      (expand_from cidr exclusions (size cidr) 0 (first_addr cidr) e) e' reached (ground arith)
expand_all_reaches a exclusions (cidr ∷ cidrs) e e' (inr later, probed) k =
    expand_all_reaches a exclusions cidrs
      (expand_from cidr exclusions (size cidr) 0 (first_addr cidr) e) e' (later, probed)
      (ground arith)

-- A sweep that is accepted has at most 65536 addresses; it misses none: every address of a requested
-- prefix that is in no exclusion, and is not the network or broadcast address of a prefix shorter
-- than /31, is probed; and those and the excluded ones are together as many as the prefixes have
-- hosts: the size of each, less two where it is shorter than /31.
pub expand_cidrs_count :
    (cidrs exclusions : List Prefix) (e : Expansion)
    → expand_cidrs cidrs exclusions ≡ ok e
    → (length e.addrs ≤ max_sweep_addresses)
      × ((a : ℕ) → IsProbed cidrs exclusions a → Listed a e.addrs)
      × (length e.addrs + e.excluded ≡ total cidrs)
unfolding expand_cidrs
expand_cidrs_count cidrs exclusions e h =
    let start : Expansion = record { addrs = []; excluded = 0 } in
    (
      expand_all_bounded exclusions cidrs start e (omega arith) h,
      λ a p. expand_all_reaches a exclusions cidrs start e p h,
      omega (arith, expand_all_count exclusions cidrs start e h),
    )
