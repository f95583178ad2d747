-- ===== src/Tests/SweepTests.antt =====
-- pkg/proxy/discovery/sweep.go: a sweep of 10.0.0.0/30 and 10.0.0.8/31 without 10.0.0.1.
use forager.Prelude.{ℕ, ◌+◌, ◌≤◌, ◌≡◌, refl, true, List, [], ◌∷◌, ok, All, Listed}
use forager.Discovery.Sweep.{
  Prefix, max_sweep_addresses, Expansion, expand_cidrs, expand_all, expand_from, is_excluded,
  contains, burst_for,
}
use forager.Discovery.Sweep.Scope.{IsProbed, total, expand_cidrs-IsProbed}
use forager.Discovery.Sweep.Complete.{expand_cidrs_count}

abbrev cidrs : List Prefix
cidrs =
    record { is4 = true; addr = 167_772_160; bits = 30 }
    ∷ record { is4 = true; addr = 167_772_168; bits = 31 }
    ∷ []

abbrev exclusions : List Prefix
exclusions = record { is4 = true; addr = 167_772_161; bits = 32 } ∷ []

abbrev probed : List ℕ
probed = 167_772_162 ∷ 167_772_168 ∷ 167_772_169 ∷ []

abbrev expansion : Expansion
expansion = record { addrs = probed; excluded = 1 }

expanded : expand_cidrs cidrs exclusions ≡ ok expansion
unfolding expand_cidrs expand_all expand_from is_excluded contains
expanded = refl

expand_cidrs-IsProbed_example : All (IsProbed cidrs exclusions) probed
expand_cidrs-IsProbed_example = expand_cidrs-IsProbed cidrs exclusions expansion expanded

expand_cidrs_count_example :
    (3 ≤ max_sweep_addresses)
    × ((a : ℕ) → IsProbed cidrs exclusions a → Listed a probed)
    × (3 + 1 ≡ total cidrs)
expand_cidrs_count_example = expand_cidrs_count cidrs exclusions expansion expanded

small_burst : burst_for 5 ≡ 1
unfolding burst_for
small_burst = refl
