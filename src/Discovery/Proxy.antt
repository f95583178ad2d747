-- ===== src/Discovery/Proxy.antt =====
-- pkg/proxy/discovery/proxy.go: the state of a discovery datasource, its scope, the packs it has
-- verified, and the checks in front of a sweep.
pub mod InScope
pub mod Trusted
pub mod History
use forager.Prelude.{
  ℕ, ◌+◌, ◌-◌, Bool, true, false, not, ◌&&◌, ◌||◌, String, List, [], ◌∷◌, ◌++◌, Option, none, some,
  ltb, leb, ◌==◌, nat_eq, string_eq, if◌then◌else◌, Map, Result, ok, err, ◌>>=◌, ◌>>◌,
}
use forager.Prelude.Int.{ℤ, pos, negsuc}
use forager.Prelude.Bytes.{Bytes}
use forager.Discovery.Sweep.{Prefix, Expansion, SweepError, contains, expand_cidrs}
use forager.Discovery.Params.{
  Param, ParamError, Netip, SweepConfig, int_param, string_slice_param, parse_sweep_params,
}
use forager.Discovery.Pack.{Pack, PackCodecs, PackError, parse_and_verify}

pub record Config : Type 0 where
  pub port : ℤ
  pub concurrency : ℤ
  pub host_timeout : ℤ
  pub command_time : ℤ
  pub dial_timeout : ℤ
  pub max_output_bytes : ℤ
  pub max_rate_pps : ℤ

abbrev pub is_positive : ℤ → Bool
is_positive (pos n) = ltb 0 n
is_positive (negsuc _) = false

abbrev pub is_zero : ℤ → Bool
is_zero (pos n) = n == 0
is_zero (negsuc _) = false

abbrev pub above : ℕ → ℤ → Bool
above limit (pos n) = ltb limit n
above limit (negsuc _) = false

abbrev pub or_default : ℕ → ℤ → ℤ
or_default default n = if is_positive n then n else pos default

abbrev pub capped : ℕ → ℤ → ℤ
capped limit n = if above limit n then pos limit else n

-- `applyConfigDefaults`
unfoldable pub apply_config_defaults : Config → Config
apply_config_defaults cfg = record {
  port = if is_zero cfg.port then pos 22 else cfg.port;
  concurrency = capped 200 (or_default 25 cfg.concurrency);
  host_timeout = or_default 120 cfg.host_timeout;
  command_time = or_default 60 cfg.command_time;
  dial_timeout = or_default 10 cfg.dial_timeout;
  max_output_bytes = or_default 4_194_304 cfg.max_output_bytes;
  max_rate_pps =
      if not (is_positive cfg.max_rate_pps) || above 1000 cfg.max_rate_pps
      then pos 1000
      else cfg.max_rate_pps;
}

-- The package net. `parse_ip` gives an address as the network of that address alone.
pub record Net : Type 0 where
  pub parse_cidr : String → Option Prefix
  pub parse_ip : String → Option Prefix
  pub net_contains : Prefix → Prefix → Bool
  pub lookup_host : String → Option (List String)

pub record Scope : Type 0 where
  pub nets : List Prefix
  pub hosts : List String

abbrev pub add_cidr : Net → String → Scope → Scope
add_cidr net c s = elim (net.parse_cidr c) [
  | some prefix ↦ record s { nets = s.nets ++ (prefix ∷ []) }
  | none ↦ elim (net.parse_ip c) [
    | some ip ↦ record s { nets = s.nets ++ (ip ∷ []) }
    | none ↦ record s { hosts = s.hosts ++ (c ∷ []) }
  ]
]

unfoldable pub add_cidrs : Net → List String → Scope → Scope
add_cidrs net [] s = s
add_cidrs net (c ∷ cs) s = add_cidrs net cs (add_cidr net c s)

unfoldable pub parse_allowed_cidrs : Net → List String → Scope
unfolding add_cidrs
parse_allowed_cidrs net cidrs = add_cidrs net cidrs (record { nets = []; hosts = [] })

unfoldable pub is_named : String → List String → Bool
is_named host [] = false
is_named host (h ∷ hs) = h == host || is_named host hs

unfoldable pub any_contains : Net → List Prefix → Prefix → Bool
any_contains net [] ip = false
any_contains net (n ∷ ns) ip = net.net_contains n ip || any_contains net ns ip

unfoldable pub any_resolved : Net → List Prefix → List String → Bool
unfolding any_contains
any_resolved net nets [] = false
any_resolved net nets (a ∷ addrs) =
    elim (net.parse_ip a) [ some ip ↦ any_contains net nets ip | none ↦ false ]
    || any_resolved net nets addrs

abbrev pub is_unrestricted : Scope → Bool
is_unrestricted s =
    elim s.nets [ [] ↦ true | _ ∷ _ ↦ false ] && elim s.hosts [ [] ↦ true | _ ∷ _ ↦ false ]

abbrev pub is_resolved_allowed : Net → List Prefix → Option (List String) → Bool
is_resolved_allowed net nets none = false
is_resolved_allowed net nets (some addrs) = any_resolved net nets addrs

unfoldable pub is_target_allowed : Net → Scope → String → Bool
unfolding is_named any_resolved any_contains
is_target_allowed net s host =
    if is_unrestricted s
    then true
    else if is_named host s.hosts
    then true
    else elim (net.parse_ip host) [
      | some ip ↦ any_contains net s.nets ip
      | none ↦ is_resolved_allowed net s.nets (net.lookup_host host)
    ]

-- `allowedPrefix.Contains(requested.Addr())` of a valid prefix, and no shorter one is requested.
unfoldable pub is_within : Prefix → Prefix → Bool
is_within requested allowed =
    allowed.is4
    && leb allowed.bits 32
    && requested.is4
    && contains allowed requested.addr
    && leb allowed.bits requested.bits

unfoldable pub prefix_within_any : Prefix → List Prefix → Bool
unfolding is_within
prefix_within_any requested [] = false
prefix_within_any requested (allowed ∷ nets) =
    is_within requested allowed || prefix_within_any requested nets

pub data SweepFailure : Type 0 where
  bad_params : ParamError → SweepFailure
  out_of_scope : Prefix → SweepFailure
  bad_scope : SweepError → SweepFailure

unfoldable pub check_scope : List Prefix → List Prefix → Result SweepFailure (Unit {0})
check_scope nets [] = ok tt
check_scope nets (requested ∷ rest) =
    let later = check_scope nets rest in
    if prefix_within_any requested nets then later else err (out_of_scope requested)

abbrev pub check_configured : List Prefix → List Prefix → Result SweepFailure (Unit {0})
check_configured [] cidrs = ok tt
check_configured (n ∷ nets) cidrs = check_scope (n ∷ nets) cidrs

abbrev pub map_err : {E F A : Type 0} → (E → F) → Result E A → Result F A
map_err f (ok a) = ok a
map_err f (err e) = err (f e)

-- `handleSweep` up to the probes: the parameters, the scope, and the addresses of `runSweep`.
unfoldable pub plan_sweep :
    Netip → Scope → ℕ → Map Param → Result SweepFailure (SweepConfig × Expansion)
plan_sweep netip s max_rate params = do
  cfg ← map_err bad_params (parse_sweep_params netip max_rate params)
  check_configured s.nets cfg.cidrs
  e ← map_err bad_scope (expand_cidrs cfg.cidrs cfg.exclusions)
  ok (cfg, e)

-- The verified packs by version, and the key that packs are verified with.
pub record Packs : Type 0 where
  pub cached : List (ℕ × Pack)
  pub pub_key : Option Bytes
  pub has_dir : Bool

pub data ResolveFailure : Type 0 where
  version_required version_not_positive no_pack_dir no_pack_key unreadable mismatch : ResolveFailure
  not_verified : PackError → ResolveFailure

unfoldable pub cached_pack : ℕ → List (ℕ × Pack) → Option Pack
cached_pack version [] = none
cached_pack version ((v, p) ∷ packs) = if v == version then some p else cached_pack version packs

unfoldable pub verify_pack : PackCodecs → Option Bytes → Bytes → Result ResolveFailure Pack
verify_pack lib none raw = err no_pack_key
verify_pack lib (some key) raw = map_err not_verified (parse_and_verify lib raw key)

abbrev pub is_version : ℕ → ℤ → Bool
is_version n (pos m) = m == n
is_version n (negsuc _) = false

-- `files` reads the file of a version in the pack directory.
unfoldable pub load_pack : PackCodecs → (ℕ → Option Bytes) → ℕ → Packs → Result ResolveFailure Pack
load_pack lib files version s = if not s.has_dir then err no_pack_dir else elim (files version) [
  | none ↦ err unreadable
  | some raw ↦
      verify_pack lib s.pub_key raw
      >>= (λ p. if is_version version p.version then ok p else err mismatch)
]

abbrev pub cache_pack : ℕ → Packs → Result ResolveFailure Pack → Packs × Result ResolveFailure Pack
cache_pack version s (err e) = (s, err e)
cache_pack version s (ok p) = (record s { cached = (version, p) ∷ s.cached }, ok p)

abbrev pub or_load :
    PackCodecs → (ℕ → Option Bytes) → ℕ → Packs → Option Pack → Packs × Result ResolveFailure Pack
or_load lib files version s (some p) = (s, ok p)
or_load lib files version s none = cache_pack version s (load_pack lib files version s)

abbrev pub resolve_version :
    PackCodecs → (ℕ → Option Bytes) → Option ℤ → Packs → Packs × Result ResolveFailure Pack
resolve_version lib files none s = (s, err version_required)
resolve_version lib files (some (negsuc _)) s = (s, err version_not_positive)
resolve_version lib files (some (pos n)) s =
    if ltb 0 n
    then or_load lib files n s (cached_pack n s.cached)
    else (s, err version_not_positive)

-- `resolvePack`
unfoldable pub resolve_pack :
    PackCodecs → (ℕ → Option Bytes) → Map Param → Packs → Packs × Result ResolveFailure Pack
resolve_pack lib files params s =
    resolve_version lib files (int_param "content_pack_version" params) s
