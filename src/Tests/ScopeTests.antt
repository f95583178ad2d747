-- ===== src/Tests/ScopeTests.antt =====
-- pkg/proxy/discovery/proxy.go: a datasource of 10.0.0.0/8, and a sweep of 10.0.0.4/30 in it.
use forager.Prelude.{◌≡◌, refl, true, [], ◌∷◌, some, Map, lookup, ok, err, All}
use forager.Prelude.Int.{pos}
use forager.Discovery.Sweep.{
  Prefix, Expansion, contains, is_excluded, expand_cidrs, expand_all, expand_from,
}
use forager.Discovery.Params.{
  Param, Netip, SweepConfig, text, items, parse_sweep_params, parse_cidrs, string_slice_param,
  all_texts, ports_param, int_param,
}
use forager.Discovery.Proxy.{Scope, plan_sweep, check_scope, prefix_within_any, out_of_scope}
use forager.Discovery.Proxy.InScope.{InNets, plan_sweep-InNets}

abbrev requested : Prefix
requested = record { is4 = true; addr = 167_772_164; bits = 30 }

abbrev ten : Prefix
ten = record { is4 = true; addr = 167_772_160; bits = 8 }

abbrev netip : Netip
netip = record {
  parse_prefix = λ s. some requested;
  parse_addr = λ s. some requested;
  masked = λ p. p;
}

abbrev scope : Scope
scope = record { nets = ten ∷ []; hosts = [] }

abbrev params : Map Param
params = ("cidrs", items (text "10.0.0.4/30" ∷ [])) ∷ []

abbrev cfg : SweepConfig
cfg = record {
  cidrs = requested ∷ [];
  exclusions = [];
  ports = 22 ∷ 3389 ∷ 5985 ∷ [];
  rate_pps = 100;
  probe_timeout = pos 1_000_000_000;
  workers = 64;
}

abbrev planned : Expansion
planned = record { addrs = 167_772_165 ∷ 167_772_166 ∷ []; excluded = 0 }

planned_in : plan_sweep netip scope 1000 params ≡ ok (cfg, planned)
unfolding plan_sweep parse_sweep_params parse_cidrs string_slice_param all_texts ports_param
    int_param check_scope prefix_within_any contains expand_cidrs expand_all expand_from is_excluded
    lookup
planned_in = refl

planned_out :
    plan_sweep netip
      (record { nets = record { is4 = true; addr = 0; bits = 8 } ∷ []; hosts = [] })
      1000
      params
    ≡ err (out_of_scope requested)
unfolding plan_sweep parse_sweep_params parse_cidrs string_slice_param all_texts ports_param
    int_param check_scope prefix_within_any contains expand_cidrs expand_all expand_from is_excluded
    lookup
planned_out = refl

-- A scope of host names only has no network, and any prefix is swept.
names_only :
    plan_sweep netip (record { nets = []; hosts = "db.internal" ∷ [] }) 1000 params
    ≡ ok (cfg, planned)
unfolding plan_sweep parse_sweep_params parse_cidrs string_slice_param all_texts ports_param
    int_param check_scope prefix_within_any contains expand_cidrs expand_all expand_from is_excluded
    lookup
names_only = refl

plan_sweep-InNets_example : All (InNets (ten ∷ [])) (167_772_165 ∷ 167_772_166 ∷ [])
plan_sweep-InNets_example =
    plan_sweep-InNets netip scope 1000 params cfg planned (λ e. cc) planned_in
