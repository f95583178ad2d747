-- ===== src/Discovery/Limits.antt =====
-- pkg/proxy/discovery/sweep.go: the limits that the parameters of a sweep are held to.
use mathlib.Core.Path.{subst}
use forager.Prelude.{
  ℕ, String, ◌≤◌, ◌≡◌, ◌≢◌, inl, inr, Bool-cases, true, Option, none, some, List, [], ◌∷◌, arith,
  Map, All, ok, ◌>>=◌, bind-eq-ok,
}
use forager.Prelude.Int.{ℤ, pos, negsuc}
use forager.Discovery.Sweep.{Prefix}
use forager.Discovery.Params.{
  Param, or_err, invalid_cidr, Netip, SweepConfig, max_sweep_workers, is_port, to_port, check_ports,
  or_default, ports_param, parse_cidrs, required_cidrs, exclusions_param, limits,
  string_slice_param, int_slice_param, is_given, parse_sweep_params, positive_or, capped, int_param,
}

abbrev pub IsPort : ℕ → Type 0
IsPort p = (1 ≤ p) × (p ≤ 65_535)

is_port-IsPort : (p : ℤ) → is_port p ≡ true → IsPort (to_port p)
is_port-IsPort (pos n) h = ground arith
is_port-IsPort (negsuc n) h = ground arith

check_ports-IsPort : (ps : List ℤ) (out : List ℕ) → check_ports ps ≡ ok out → All IsPort out
unfolding check_ports
check_ports-IsPort [] [] h = tt
check_ports-IsPort [] (q ∷ out) h = ground arith
check_ports-IsPort (p ∷ ps) out h = elim (Bool-cases (is_port p)) [
  | inr n ↦ ground arith
  | inl y ↦
      let step = bind-eq-ok (check_ports ps) (λ o. ok (to_port p ∷ o)) {b = out} (ground arith) in
      let same : to_port p ∷ step.0 ≡ out = ground arith in
      subst (All IsPort) same (is_port-IsPort p y, check_ports-IsPort ps step.0 step.1)
]

-- Ports to probe: at least one, each from 1 to 65535.
abbrev pub ArePorts : List ℕ → Type 0
ArePorts ports = (ports ≢ []) × All IsPort ports

or_default-ArePorts : (ps : List ℕ) → All IsPort ps → ArePorts (or_default ps)
or_default-ArePorts [] h = (
  ground arith,
  ((omega arith, omega arith), ((omega arith, omega arith), ((omega arith, omega arith), tt))),
)
or_default-ArePorts (p ∷ ps) h = (ground arith, h)

ports_param-ArePorts :
    (params : Map Param) (ports : List ℕ) → ports_param params ≡ ok ports → ArePorts ports
unfolding ports_param
ports_param-ArePorts params ports h = elim (Bool-cases (is_given "ports" params)) [
  | inr n ↦
      let same : or_default [] ≡ ports = ground arith in
      subst ArePorts same (or_default-ArePorts [] tt)
  | inl y ↦
      let numbers =
        bind-eq-ok (int_slice_param "ports" params)
          (λ ps. check_ports ps >>= (λ out. ok (or_default out))) {b = ports} (ground arith) in
      let checked = bind-eq-ok (check_ports numbers.0) (λ out. ok (or_default out)) numbers.2 in
      let same : or_default checked.0 ≡ ports = ground arith in
      subst ArePorts same
        (or_default-ArePorts checked.0 (check_ports-IsPort numbers.0 checked.0 checked.1))
]

-- A positive parameter or its default, at most the limit.
capped_lem :
    (limit default : ℕ) (param : Option ℤ)
    → 1 ≤ limit
    → 1 ≤ default
    → (1 ≤ capped limit (positive_or default param))
      × (capped limit (positive_or default param) ≤ limit)
capped_lem limit default none l d = ground arith
capped_lem limit default (some (pos n)) l d = ground arith
capped_lem limit default (some (negsuc n)) l d = ground arith

-- At least one prefix, a rate up to the module's, up to 512 workers, and ports.
abbrev pub IsLimited : ℕ → SweepConfig → Type 0
IsLimited max_rate cfg =
    (cfg.cidrs ≢ [])
    × ((1 ≤ cfg.rate_pps) × (cfg.rate_pps ≤ max_rate))
    × ((1 ≤ cfg.workers) × (cfg.workers ≤ max_sweep_workers))
    × ArePorts cfg.ports

module _ (lib : Netip) where
  required_cidrs_nonempty :
      (raw : List String) (cidrs : List Prefix) → required_cidrs lib raw ≡ ok cidrs → cidrs ≢ []
  unfolding parse_cidrs
  required_cidrs_nonempty [] cidrs h = ground arith
  required_cidrs_nonempty (c ∷ cs) cidrs h = λ empty.
      let outer =
        bind-eq-ok (or_err (invalid_cidr c) (lib.parse_prefix c))
          (λ prefix. parse_cidrs lib cs >>= (λ rest. ok (lib.masked prefix ∷ rest))) h in
      let inner =
        bind-eq-ok (parse_cidrs lib cs) (λ rest. ok (lib.masked outer.0 ∷ rest)) outer.2 in
      ground arith

  -- Parameters that are accepted for a module whose highest rate is not zero give a sweep of at
  -- least one prefix, at a rate from 1 to that rate, with 1 to 512 workers, and with at least one
  -- port, each from 1 to 65535.
  pub parse_sweep_params_lem :
      (max_rate : ℕ) (params : Map Param) (cfg : SweepConfig)
      → 1 ≤ max_rate
      → parse_sweep_params lib max_rate params ≡ ok cfg
      → IsLimited max_rate cfg
  unfolding parse_sweep_params
  parse_sweep_params_lem max_rate params cfg m h =
      let raw =
        bind-eq-ok (string_slice_param "cidrs" params)
          (λ raw. required_cidrs lib raw >>= (λ cidrs. exclusions_param lib params >>= (λ ex.
            ports_param params >>= (λ ports. ok (limits lib max_rate params cidrs ex ports)))))
          h in
      let cidrs =
        bind-eq-ok (required_cidrs lib raw.0)
          (λ cidrs. exclusions_param lib params >>= (λ ex.
            ports_param params >>= (λ ports. ok (limits lib max_rate params cidrs ex ports))))
          raw.2 in
      let ex =
        bind-eq-ok (exclusions_param lib params)
          (λ ex. ports_param params >>= (λ ports. ok (limits lib max_rate params cidrs.0 ex ports)))
          cidrs.2 in
      let ports =
        bind-eq-ok (ports_param params)
          (λ ports. ok (limits lib max_rate params cidrs.0 ex.0 ports)) ex.2 in
      let same : limits lib max_rate params cidrs.0 ex.0 ports.0 ≡ cfg = ground arith in
      subst (IsLimited max_rate) same (
        required_cidrs_nonempty raw.0 cidrs.0 cidrs.1,
        capped_lem max_rate 100 (int_param "rate_pps" params) m (omega arith),
        capped_lem max_sweep_workers 64 (int_param "workers" params) (omega arith) (omega arith),
        ports_param-ArePorts params ports.0 ports.1,
      )
