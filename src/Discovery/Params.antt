-- ===== src/Discovery/Params.antt =====
-- pkg/proxy/discovery/sweep.go and proxy.go: the parameters of a sweep.
use forager.Prelude.{
  ℕ, ◌-◌, ◌*◌, ◌%◌, ◌^◌, Bool, true, false, String, Option, none, some, List, [], ◌∷◌, ltb,
  if◌then◌else◌, Map, lookup, Result, ok, err, ◌>>=◌,
}
use forager.Prelude.Int.{ℤ, pos, negsuc, half}
use forager.Discovery.Sweep.{Prefix}

-- An element of a decoded JSON list. `number` is the int that a float64 or an int is converted to.
pub data Item : Type 0 where
  text : String → Item
  number : ℤ → Item
  no_item : Item

pub data Param : Type 0 where
  null : Param
  scalar : Item → Param
  texts : List String → Param
  items : List Item → Param

pub data ParamError : Type 0 where
  cidrs_required : ParamError
  missing not_strings not_numbers invalid_cidr invalid_exclusion : String → ParamError
  invalid_port : ℤ → ParamError

-- net/netip: `parse_addr` gives the prefix of all bits of an address.
pub record Netip : Type 0 where
  pub parse_prefix : String → Option Prefix
  pub parse_addr : String → Option Prefix
  pub masked : Prefix → Prefix

pub record SweepConfig : Type 0 where
  pub cidrs : List Prefix
  pub exclusions : List Prefix
  pub ports : List ℕ
  pub rate_pps : ℕ
  pub probe_timeout : ℤ
  pub workers : ℕ

abbrev pub max_sweep_workers : ℕ
max_sweep_workers = 512

abbrev pub default_sweep_ports : List ℕ
default_sweep_ports = 22 ∷ 3389 ∷ 5985 ∷ []

unfoldable pub all_texts : String → List Item → Result ParamError (List String)
all_texts key [] = ok []
all_texts key (text s ∷ rest) = do out ← all_texts key rest; ok (s ∷ out)
all_texts key (number _ ∷ rest) = err (not_strings key)
all_texts key (no_item ∷ rest) = err (not_strings key)

-- `stringSliceParam`
unfoldable pub string_slice_param : String → Map Param → Result ParamError (List String)
unfolding all_texts
string_slice_param key params = elim (lookup key params) [
  | none ↦ err (missing key)
  | some (texts v) ↦ ok v
  | some (items v) ↦ all_texts key v
  | some _ ↦ err (not_strings key)
]

unfoldable pub all_numbers : String → List Item → Result ParamError (List ℤ)
all_numbers key [] = ok []
all_numbers key (number n ∷ rest) = do out ← all_numbers key rest; ok (n ∷ out)
all_numbers key (text _ ∷ rest) = err (not_numbers key)
all_numbers key (no_item ∷ rest) = err (not_numbers key)

-- `intSliceParam`
unfoldable pub int_slice_param : String → Map Param → Result ParamError (List ℤ)
unfolding all_numbers
int_slice_param key params = elim (lookup key params) [
  | none ↦ ok []
  | some (items v) ↦ all_numbers key v
  | some _ ↦ err (not_numbers key)
]

-- `intParam`
unfoldable pub int_param : String → Map Param → Option ℤ
int_param key params = elim (lookup key params) [ some (scalar (number n)) ↦ some n | _ ↦ none ]

-- `raw, ok := params[key]; ok && raw != nil`
abbrev pub is_given : String → Map Param → Bool
is_given key params = elim (lookup key params) [ none ↦ false | some null ↦ false | some _ ↦ true ]

abbrev pub or_err : {A : Type 0} → ParamError → Option A → Result ParamError A
or_err e none = err e
or_err e (some a) = ok a

abbrev pub positive_or : ℕ → Option ℤ → ℕ
positive_or default none = default
positive_or default (some (negsuc _)) = default
positive_or default (some (pos n)) = if ltb 0 n then n else default

abbrev pub capped : ℕ → ℕ → ℕ
capped limit n = if ltb limit n then limit else n

-- A product in int64, of values that are not negative.
abbrev pub wrap_int64 : ℕ → ℤ
wrap_int64 n = let m = n % 2 ^ 64 in if ltb m half then pos m else negsuc (2 ^ 64 - 1 - m)

abbrev pub is_port : ℤ → Bool
is_port (negsuc _) = false
is_port (pos n) = if ltb n 1 then false else if ltb 65_535 n then false else true

abbrev pub to_port : ℤ → ℕ
to_port (pos n) = n
to_port (negsuc _) = 0

unfoldable pub check_ports : List ℤ → Result ParamError (List ℕ)
check_ports [] = ok []
check_ports (p ∷ ps) =
    let rest = check_ports ps in
    if is_port p then rest >>= (λ out. ok (to_port p ∷ out)) else err (invalid_port p)

abbrev pub or_default : List ℕ → List ℕ
or_default [] = default_sweep_ports
or_default (p ∷ ps) = p ∷ ps

unfoldable pub ports_param : Map Param → Result ParamError (List ℕ)
ports_param params =
    if is_given "ports" params
    then int_slice_param "ports" params >>= (λ ps. check_ports ps >>= (λ out. ok (or_default out)))
    else ok default_sweep_ports

module _ (lib : Netip) where
  -- `parsePrefixOrAddr`
  unfoldable pub parse_prefix_or_addr : String → Option Prefix
  parse_prefix_or_addr s = elim (lib.parse_prefix s) [
    | some prefix ↦ some (lib.masked prefix)
    | none ↦ lib.parse_addr s
  ]

  unfoldable pub parse_cidrs : List String → Result ParamError (List Prefix)
  parse_cidrs [] = ok []
  parse_cidrs (c ∷ cs) = do
    prefix ← or_err (invalid_cidr c) (lib.parse_prefix c)
    rest ← parse_cidrs cs
    ok (lib.masked prefix ∷ rest)

  unfoldable pub parse_exclusions : List String → Result ParamError (List Prefix)
  parse_exclusions [] = ok []
  parse_exclusions (e ∷ es) = do
    prefix ← or_err (invalid_exclusion e) (parse_prefix_or_addr e)
    rest ← parse_exclusions es
    ok (prefix ∷ rest)

  abbrev pub required_cidrs : List String → Result ParamError (List Prefix)
  required_cidrs [] = err cidrs_required
  required_cidrs (c ∷ cs) = parse_cidrs (c ∷ cs)

  abbrev pub exclusions_param : Map Param → Result ParamError (List Prefix)
  exclusions_param params =
      if is_given "exclusions" params
      then string_slice_param "exclusions" params >>= parse_exclusions
      else ok []

  abbrev pub limits : ℕ → Map Param → List Prefix → List Prefix → List ℕ → SweepConfig
  limits max_rate params cidrs exclusions ports = record {
    cidrs = cidrs;
    exclusions = exclusions;
    ports = ports;
    rate_pps = capped max_rate (positive_or 100 (int_param "rate_pps" params));
    probe_timeout = wrap_int64 (positive_or 1000 (int_param "timeout_ms" params) * 1_000_000);
    workers = capped max_sweep_workers (positive_or 64 (int_param "workers" params));
  }

  -- `parseSweepParams`
  unfoldable pub parse_sweep_params : ℕ → Map Param → Result ParamError SweepConfig
  parse_sweep_params max_rate params = do
    raw ← string_slice_param "cidrs" params
    cidrs ← required_cidrs raw
    exclusions ← exclusions_param params
    ports ← ports_param params
    ok (limits max_rate params cidrs exclusions ports)
