-- ===== src/Discovery/When.antt =====
-- pkg/proxy/discovery/when.go: the guards of a content pack. Texts are bytes, and their spaces ASCII.
pub mod Meaning
pub mod Printed
pub mod RoundTrip
use forager.Prelude.{
  ℕ, Bool, true, false, not, ◌||◌, List, [], ◌∷◌, ◌++◌, Option, none, some, ◌==◌, nat_eq,
  if◌then◌else◌, Result, ok, err, ◌>>=◌, ◌>>◌,
}
use forager.Prelude.Bytes.{Bytes, codes, bytes_eq, trim_space}
use forager.Prelude.Text.{cut, split, find}

pub data Op : Type 0 where
  equal differs : Op

pub record Comparison : Type 0 where
  pub fact : Bytes
  pub op : Op
  pub value : Bytes

-- The outer list holds the terms of `||`, an inner one those of `&&`.
abbrev pub WhenExpr : Type 0
WhenExpr = List (List Comparison)

pub data WhenError : Type 0 where
  empty_expression must_be_quoted contains_quote : WhenError
  expected_operator unknown_fact not_available : Bytes → WhenError

abbrev pub os_family : Bytes
os_family = codes "os_family"

abbrev pub os_id : Bytes
os_id = codes "os_id"

abbrev pub os_major : Bytes
os_major = codes "os_major"

abbrev pub arch : Bytes
arch = codes "arch"

-- `knownFacts`
unfoldable pub is_known : Bytes → Bool
is_known fact = fact == os_family || fact == os_id || fact == os_major || fact == arch

-- What follows a first byte, without its last byte, and that byte.
unfoldable pub take_last : ℕ → Bytes → Bytes × ℕ
take_last c [] = ([], c)
take_last c (d ∷ s) = let (inner, last) = take_last d s in (c ∷ inner, last)

abbrev pub quote : ℕ
quote = 0x22

abbrev pub apostrophe : ℕ
apostrophe = 0x27

unfoldable pub has_quote : Bytes → Bool
has_quote [] = false
has_quote (c ∷ s) = c == quote || c == apostrophe || has_quote s

abbrev pub unquoted : ℕ → Bytes × ℕ → Result WhenError Bytes
unquoted first (inner, last) =
    if not (first == quote || first == apostrophe) || not (first == last)
    then err must_be_quoted
    else if has_quote inner
    then err contains_quote
    else ok inner

unfoldable pub unquote : Bytes → Result WhenError Bytes
unfolding take_last has_quote
unquote [] = err must_be_quoted
unquote (c ∷ []) = err must_be_quoted
unquote (first ∷ c ∷ s) = unquoted first (take_last c s)

unfoldable pub build : Op → Bytes × Bytes → Result WhenError Comparison
unfolding is_known unquote
build op (left, right) =
    let fact = trim_space left in
    if not (is_known fact)
    then err (unknown_fact fact)
    else unquote (trim_space right)
      >>= (λ value. ok (record { fact = fact; op = op; value = value }))

-- `Contains` and `SplitN(s, op, 2)` in one: `==` is looked for before `!=`.
unfoldable pub parse_comparison : Bytes → Result WhenError Comparison
unfolding build
parse_comparison text =
    let s = trim_space text in
    elim (cut (codes "==") s) [
      | some parts ↦ build equal parts
      | none ↦ elim (cut (codes "!=") s) [
        | some parts ↦ build differs parts
        | none ↦ err (expected_operator s)
      ]
    ]

unfoldable pub parse_ands : List Bytes → Result WhenError (List Comparison)
parse_ands [] = ok []
parse_ands (part ∷ parts) = do c ← parse_comparison part; rest ← parse_ands parts; ok (c ∷ rest)

unfoldable pub parse_ors : List Bytes → Result WhenError WhenExpr
parse_ors [] = ok []
parse_ors (part ∷ parts) = do
  ands ← parse_ands (split (codes "&&") part)
  rest ← parse_ors parts
  ok (ands ∷ rest)

unfoldable pub parse_when : Bytes → Result WhenError WhenExpr
unfolding parse_ors
parse_when text =
    let s = trim_space text in
    if s == [] then err empty_expression else parse_ors (split (codes "||") s)

abbrev pub Facts : Type 0
Facts = List (Bytes × Bytes)

abbrev pub holds : Op → Bytes → Bytes → Bool
holds equal got value = got == value
holds differs got value = not (got == value)

-- The inner loop: it stops at the first comparison that does not hold.
unfoldable pub eval_ands : Facts → List Comparison → Result WhenError Bool
eval_ands facts [] = ok true
eval_ands facts (c ∷ cs) =
    let rest = eval_ands facts cs in
    elim (find c.fact facts) [
      | none ↦ err (not_available c.fact)
      | some got ↦ if holds c.op got c.value then rest else ok false
    ]

unfoldable pub eval : Facts → WhenExpr → Result WhenError Bool
unfolding eval_ands
eval facts [] = ok false
eval facts (ands ∷ ors) =
    let rest = eval facts ors in eval_ands facts ands >>= (λ all. if all then ok true else rest)
