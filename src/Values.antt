-- ===== src/Values.antt =====
-- Values of a datasource's configuration (`map[string]any`), and how the handler coerces them.
use forager.Prelude.{
  ℕ, ◌+◌, ◌-◌, ◌*◌, Bool, true, false, ◌&&◌, String, Option, none, some, List, [], ◌∷◌, ltb, leb,
  ◌==◌, nat_eq, string_eq, if◌then◌else◌, Map,
}
use forager.Prelude.Bytes.{Bytes, codes}
use forager.Prelude.Int.{ℤ, pos, negsuc, half}

-- `strings` is a `[]string`. `anys` is a `[]any`, of which only the strings are read: `none` is
-- another value.
pub data Value : Type 0 where
  str : String → Value
  bool : Bool → Value
  int : ℤ → Value
  strings : List String → Value
  anys : List (Option String) → Value
  other : Value

unfoldable pub digits : ℕ → Bytes → Option ℕ
digits n [] = some n
digits n (c ∷ s) =
    let rest = digits (n * 10 + (c - b'0')) s in if leb b'0' c && leb c b'9' then rest else none

abbrev pub unsigned : Bytes → Option ℕ
unsigned [] = none
unsigned (c ∷ s) = digits 0 (c ∷ s)

abbrev pub positive : Option ℕ → Option ℤ
positive none = none
positive (some n) = if ltb n half then some (pos n) else none

abbrev pub negative : Option ℕ → Option ℤ
negative none = none
negative (some n) =
    if n == 0 then some (pos 0) else if leb n half then some (negsuc (n - 1)) else none

-- strconv.Atoi
unfoldable pub atoi : Bytes → Option ℤ
unfolding digits
atoi [] = none
atoi (c ∷ s) =
    if c == b'-'
    then negative (unsigned s)
    else positive (if c == b'+' then unsigned s else unsigned (c ∷ s))

unfoldable pub normalize_value : Value → Value
unfolding atoi
normalize_value (str s) =
    if s == "true"
    then bool true
    else if s == "false"
    then bool false
    else elim (atoi (codes s)) [ some n ↦ int n | none ↦ str s ]
normalize_value v = v

-- `normalizeConfigValues`
unfoldable pub normalize_config_values : Map Value → Map Value
unfolding normalize_value
normalize_config_values [] = []
normalize_config_values ((k, v) ∷ config) = (k, normalize_value v) ∷ normalize_config_values config
