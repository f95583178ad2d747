-- ===== src/Discovery/Proxy/InScope.antt =====
-- pkg/proxy/discovery/proxy.go: a sweep stays in the networks of its datasource.
use mathlib.Core.Path.{subst}
use native.Mathlib.Nat.{
  div-div-eq-div-mul, div-add-mod, mul-add-div, div-eq_of_lt, one-le-pow, two-pow-succ,
}
use forager.Prelude.{
  ℕ, zero, suc, ◌+◌, ◌-◌, ◌*◌, ◌/◌, ◌%◌, ◌^◌, ◌≤◌, ◌<◌, ◌≡◌, ◌≢◌, ◌∙◌, ◌⊎◌, inl, inr, refl, sym, ap,
  Bool-cases, true, List, [], ◌∷◌, Map, arith, nat_eq, Result, ok, err, ◌>>=◌, ◌>>◌, bind-eq-ok,
  All, All-map,
}
use forager.Discovery.Sweep.{
  Prefix, Expansion, size, first_addr, contains, expand_cidrs, SweepError,
}
use forager.Discovery.Sweep.Scope.{InPrefix, InScope, expand_cidrs-IsProbed}
use forager.Discovery.Params.{Param, Netip, SweepConfig, parse_sweep_params}
use forager.Discovery.Proxy.{
  Scope, is_within, prefix_within_any, bad_params, bad_scope, check_scope, check_configured,
  map_err, plan_sweep,
}

-- The multiple of `m` at or below `n`.
base_lem : (n m : ℕ) → n - n % m ≡ m * (n / m)
base_lem n m = omega (arith, div-add-mod n m)

-- A shorter network that holds one address of a block holds the block.
block_lem :
    (x i s k : ℕ) → 0 < s → i < s → (x - x % s + i) - (x - x % s + i) % (s * k) ≡ x - x % (s * k)
block_lem x i s k p lt =
    let y = x - x % s + i in
    let same : y / s ≡ x / s =
      ap (λ (b : ℕ). (b + i) / s) (base_lem x s)
      ∙ mul-add-div p (x / s) i
      ∙ omega (arith, div-eq_of_lt lt) in
    base_lem y (s * k)
    ∙ ap (λ (q : ℕ). s * k * q)
        (sym (div-div-eq-div-mul y s k) ∙ ap (λ (q : ℕ). q / k) same ∙ div-div-eq-div-mul x s k)
    ∙ sym (base_lem x (s * k))

pow-add : (a b : ℕ) → 2 ^ (a + b) ≡ 2 ^ a * 2 ^ b
pow-add a zero = let e : a + 0 ≡ a = omega arith in rw e (omega arith)
pow-add a (suc b) =
    let e : a + suc b ≡ suc (a + b) = omega arith in
    rw e (
      omega (
        arith,
        two-pow-succ (a + b),
        two-pow-succ b,
        pow-add a b,
        ap (λ (t : ℕ). 2 ^ a * t) (two-pow-succ b),
      ))

size_within :
    (r n : Prefix) → n.bits ≤ r.bits → size n ≡ size r * 2 ^ ((32 - n.bits) - (32 - r.bits))
size_within r n le =
    ap (λ (e : ℕ). 2 ^ e) (omega arith) ∙ pow-add (32 - r.bits) ((32 - n.bits) - (32 - r.bits))

is_within-contains :
    (r n : Prefix) (a : ℕ) → is_within r n ≡ true → InPrefix r a → contains n a ≡ true
unfolding is_within contains
is_within-contains r n a h (i, lt, _, at) =
    let le : n.bits ≤ r.bits = ground arith in
    let k = 2 ^ ((32 - n.bits) - (32 - r.bits)) in
    let block : (m : ℕ)
        → m ≡ size r * k
        → (first_addr r + i) - (first_addr r + i) % m ≡ r.addr - r.addr % m =
      λ m same.
        rw same (block_lem r.addr i (size r) k (one-le-pow (32 - r.bits) 2 (omega arith)) lt) in
    let here : a - a % size n ≡ r.addr - r.addr % size n =
      rw at (block (size n) (size_within r n le)) in
    ground arith

-- The address lies in one of the networks.
abbrev pub InNets : List Prefix → ℕ → Type 0
InNets [] a = ⊥
InNets (n ∷ nets) a = (contains n a ≡ true) ⊎ InNets nets a

prefix_within_any-InNets :
    (r : Prefix) (nets : List Prefix) (a : ℕ)
    → prefix_within_any r nets ≡ true
    → InPrefix r a
    → InNets nets a
unfolding prefix_within_any
prefix_within_any-InNets r [] a h p = ground arith
prefix_within_any-InNets r (n ∷ nets) a h p = elim (Bool-cases (is_within r n)) [
  | inl within ↦ inl (is_within-contains r n a within p)
  | inr outside ↦ inr (prefix_within_any-InNets r nets a (ground arith) p)
]

check_scope-InNets :
    (nets cidrs : List Prefix) (a : ℕ)
    → check_scope nets cidrs ≡ ok tt
    → InScope cidrs a
    → InNets nets a
unfolding check_scope
check_scope-InNets nets [] a h p = absurd p
check_scope-InNets nets (r ∷ cidrs) a h (inl p) = prefix_within_any-InNets r nets a (ground arith) p
check_scope-InNets nets (r ∷ cidrs) a h (inr p) = check_scope-InNets nets cidrs a (ground arith) p

configured :
    (nets cidrs : List Prefix) {u : Unit {0}}
    → nets ≢ []
    → check_configured nets cidrs ≡ ok u
    → check_scope nets cidrs ≡ ok tt
configured [] cidrs ne h = absurd (ne refl)
configured (n ∷ nets) cidrs ne h = h

unmapped : (r : Result SweepError Expansion) {e : Expansion} → map_err bad_scope r ≡ ok e → r ≡ ok e
unmapped (ok x) h = ground arith
unmapped (err x) h = ground arith

-- What a sweep of a datasource with networks probes lies in one of these networks, whatever the
-- request asks for.
pub plan_sweep-InNets :
    (netip : Netip) (s : Scope) (max_rate : ℕ) (params : Map Param) (cfg : SweepConfig)
    (e : Expansion)
    → s.nets ≢ []
    → plan_sweep netip s max_rate params ≡ ok (cfg, e)
    → All (InNets s.nets) e.addrs
unfolding plan_sweep
plan_sweep-InNets netip s max_rate params cfg e some_net h =
    let (cfg', _, behind) =
      bind-eq-ok (map_err bad_params (parse_sweep_params netip max_rate params))
        (λ c.
          check_configured s.nets c.cidrs
          >> (map_err bad_scope (expand_cidrs c.cidrs c.exclusions) >>= (λ x. ok (c, x))))
        h in
    let (_, checked, rest) =
      bind-eq-ok (check_configured s.nets cfg'.cidrs)
        (λ _. map_err bad_scope (expand_cidrs cfg'.cidrs cfg'.exclusions) >>= (λ x. ok (cfg', x)))
        behind in
    let (e', expanded, end) =
      bind-eq-ok (map_err bad_scope (expand_cidrs cfg'.cidrs cfg'.exclusions)) (λ x. ok (cfg', x))
        rest in
    let same : e' ≡ e = ground arith in
    subst (λ (x : Expansion). All (InNets s.nets) x.addrs) same
      (All-map
        (λ a probed.
          check_scope-InNets s.nets cfg'.cidrs a (configured s.nets cfg'.cidrs some_net checked)
            probed.0)
        e'.addrs
        (expand_cidrs-IsProbed cfg'.cidrs cfg'.exclusions e'
          (unmapped (expand_cidrs cfg'.cidrs cfg'.exclusions) expanded)))
