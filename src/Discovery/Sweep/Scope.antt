-- ===== src/Discovery/Sweep/Scope.antt =====
-- pkg/proxy/discovery/sweep.go: what is probed lies in the scope and outside the exclusions.
use mathlib.Core.Path.{subst}
use forager.Prelude.{
  ℕ, zero, suc, ◌+◌, ◌-◌, ◌<◌, ◌≡◌, ◌⊎◌, inl, inr, Bool-cases, false, List, [], ◌∷◌, arith, leb,
  nat_eq, if◌then◌else◌, ok, All, All-append,
}
use forager.Discovery.Sweep.{
  Prefix, size, first_addr, is_excluded, Expansion, is_edge, visit, expand_from, expand_all,
  expand_cidrs,
}

-- An address of one of the prefixes, at place `i`, which is not that of the network or broadcast
-- address where the prefix is shorter than /31.
abbrev pub InPrefix : Prefix → ℕ → Type 0
InPrefix cidr addr =
    (i : ℕ) × (i < size cidr) × (is_edge cidr i ≡ false) × (addr ≡ first_addr cidr + i)

abbrev pub InScope : List Prefix → ℕ → Type 0
InScope [] addr = ⊥
InScope (cidr ∷ cidrs) addr = InPrefix cidr addr ⊎ InScope cidrs addr

abbrev pub IsProbed : List Prefix → List Prefix → ℕ → Type 0
IsProbed cidrs exclusions addr = InScope cidrs addr × (is_excluded addr exclusions ≡ false)

-- How many places of a prefix are swept or excluded.
abbrev pub hosts : Prefix → ℕ
hosts cidr = if leb cidr.bits 30 then size cidr - 2 else size cidr

abbrev pub total : List Prefix → ℕ
total [] = 0
total (cidr ∷ cidrs) = hosts cidr + total cidrs

module _ (cidr : Prefix) (exclusions : List Prefix) (P : ℕ → Type 0) where
  expand_from-All :
      (n i addr : ℕ) (e : Expansion)
      → i + n ≡ size cidr
      → addr ≡ first_addr cidr + i
      → ((a : ℕ) → InPrefix cidr a → is_excluded a exclusions ≡ false → P a)
      → All P e.addrs
      → All P (expand_from cidr exclusions n i addr e).addrs
  unfolding expand_from
  expand_from-All zero i addr e end at h all = all
  expand_from-All (suc n) i addr e end at h all =
      expand_from-All n (i + 1) (addr + 1) (visit cidr exclusions i addr e) (omega arith)
        (omega arith) h (visit_all)
    where
      visit_all : All P (visit cidr exclusions i addr e).addrs
      visit_all = elim (Bool-cases (is_edge cidr i)) [
        | inl edge ↦ rw edge all
        | inr inside ↦ elim (Bool-cases (is_excluded addr exclusions)) [
          | inl out ↦ rw (inside, out) all
          | inr probed ↦
              rw (inside, probed)
                (All-append P e.addrs (addr ∷ []) all
                  (h addr (i, omega arith, inside, at) probed, tt))
        ]
      ]

expand_all-All :
    (P : ℕ → Type 0) (exclusions cidrs : List Prefix) (e e' : Expansion)
    → ((a : ℕ) → IsProbed cidrs exclusions a → P a)
    → All P e.addrs
    → expand_all cidrs exclusions e ≡ ok e'
    → All P e'.addrs
unfolding expand_all
expand_all-All P exclusions [] e e' h all k =
    let same : e ≡ e' = ground arith in subst (λ (x : Expansion). All P x.addrs) same all
expand_all-All P exclusions (cidr ∷ cidrs) e e' h all k =
    expand_all-All P exclusions cidrs
      (expand_from cidr exclusions (size cidr) 0 (first_addr cidr) e) e' (λ a p. h a (inr p.0, p.1))
      (expand_from-All cidr exclusions P (size cidr) 0 (first_addr cidr) e (omega arith)
        (omega arith) (λ a p x. h a (inl p, x)) all)
      (ground arith)

-- Every address that is probed lies in one of the requested prefixes, is neither the network nor the
-- broadcast address of a prefix shorter than /31, and lies in no exclusion.
pub expand_cidrs-IsProbed :
    (cidrs exclusions : List Prefix) (e : Expansion)
    → expand_cidrs cidrs exclusions ≡ ok e
    → All (IsProbed cidrs exclusions) e.addrs
unfolding expand_cidrs
expand_cidrs-IsProbed cidrs exclusions e h =
    expand_all-All (IsProbed cidrs exclusions) exclusions cidrs
      (record { addrs = []; excluded = 0 }) e (λ a p. p) tt h
