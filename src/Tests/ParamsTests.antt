-- ===== src/Tests/ParamsTests.antt =====
-- pkg/proxy/discovery/sweep.go: the parameters of a sweep of one prefix, on two ports.
use forager.Prelude.{◌≡◌, refl, true, some, [], ◌∷◌, Map, ok, lookup, arith}
use forager.Prelude.Int.{pos}
use forager.Discovery.Sweep.{Prefix}
use forager.Discovery.Params.{
  Param, Netip, SweepConfig, text, number, scalar, items, parse_sweep_params, parse_cidrs,
  string_slice_param, all_texts, int_slice_param, all_numbers, check_ports, ports_param, int_param,
}
use forager.Discovery.Limits.{IsLimited, parse_sweep_params_lem}

abbrev prefix : Prefix
prefix = record { is4 = true; addr = 167_772_160; bits = 24 }

abbrev netip : Netip
netip = record { parse_prefix = λ s. some prefix; parse_addr = λ s. some prefix; masked = λ p. p }

abbrev params : Map Param
params =
    ("cidrs", items (text "10.0.0.0/24" ∷ []))
    ∷ ("ports", items (number (pos 22) ∷ number (pos 443) ∷ []))
    ∷ ("rate_pps", scalar (number (pos 5000)))
    ∷ []

abbrev accepted : SweepConfig
accepted = record {
  cidrs = prefix ∷ [];
  exclusions = [];
  ports = 22 ∷ 443 ∷ [];
  rate_pps = 1000;
  probe_timeout = pos 1_000_000_000;
  workers = 64;
}

parsed : parse_sweep_params netip 1000 params ≡ ok accepted
unfolding parse_sweep_params parse_cidrs string_slice_param all_texts int_slice_param all_numbers
    check_ports ports_param int_param lookup
parsed = refl

parse_sweep_params_lem_example : IsLimited 1000 accepted
parse_sweep_params_lem_example =
    parse_sweep_params_lem netip 1000 params accepted (omega arith) parsed
