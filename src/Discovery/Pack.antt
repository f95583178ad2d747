-- ===== src/Discovery/Pack.antt =====
-- pkg/proxy/discovery/pack.go and facts.go: content packs, the check of their signature, and which
-- collectors run on a host. A pack is what the YAML decoder gives; texts are bytes.
pub mod Signed
pub mod Valid
pub mod Selected
use forager.Prelude.{
  ℕ, ◌+◌, ◌<◌, Bool, true, false, not, ◌&&◌, ◌||◌, List, [], ◌∷◌, ◌++◌, Option, none, some, ltb,
  ◌==◌, nat_eq, if◌then◌else◌, length, Result, ok, err, ◌>>=◌, ◌>>◌,
}
use forager.Prelude.Int.{ℤ, pos, negsuc}
use forager.Prelude.Bytes.{Bytes, codes, bytes_eq, has_prefix, contains, trim_space, fields, join}
use forager.Prelude.Text.{cut, split, split_lines, trim_right, find}
use forager.Discovery.When.{
  WhenExpr, WhenError, Facts, parse_when, eval, os_family, os_id, os_major, arch,
}

-- `expr` is the guard as `validate` parsed it.
pub record Collector : Type 0 where
  pub id : Bytes
  pub when : Bytes
  pub cmd : Bytes
  pub expr : Option WhenExpr

pub record Pack : Type 0 where
  pub version : ℤ
  pub kind : Bytes
  pub collectors : List Collector
  pub signature : Bytes

-- The packages yaml.v3, base64 and ed25519.
pub record PackCodecs : Type 0 where
  pub unmarshal_yaml : Bytes → Option Pack
  pub decode_base64 : Bytes → Option Bytes
  pub ed25519_verify : Bytes → Bytes → Bytes → Bool

pub data PackError : Type 0 where
  empty_pack too_large not_yaml no_key unsigned not_base64 bad_signature bad_version bad_kind :
      PackError
  no_collectors no_id : PackError
  signature_lines : ℕ → PackError
  duplicate_id no_cmd : Bytes → PackError
  bad_guard : Bytes → WhenError → PackError

abbrev pub max_pack_bytes : ℕ
max_pack_bytes = 1_048_576

abbrev pub public_key_size : ℕ
public_key_size = 32

abbrev pub newline : ℕ
newline = 10

abbrev pub carriage : ℕ
carriage = 13

-- The two passes that make every line end a newline.
unfoldable pub replace_crlf : Bytes → Bytes
replace_crlf [] = []
replace_crlf (c ∷ []) = c ∷ []
replace_crlf (c ∷ d ∷ s) = elim (c == carriage && d == newline) [
  | true ↦ newline ∷ replace_crlf s
  | false ↦ c ∷ replace_crlf (d ∷ s)
]

unfoldable pub replace_cr : Bytes → Bytes
replace_cr [] = []
replace_cr (c ∷ s) = (if c == carriage then newline else c) ∷ replace_cr s

abbrev pub is_blank : ℕ → Bool
is_blank c = c == b' ' || c == 9

-- Behind the word: blanks, and a colon.
unfoldable pub is_key_end : Bytes → Bool
is_key_end [] = false
is_key_end (c ∷ s) = let rest = is_key_end s in if is_blank c then rest else c == b':'

-- `^signature[ \t]*:`
unfoldable pub matches_key : Bytes → Bytes → Bool
unfolding is_key_end
matches_key [] s = is_key_end s
matches_key (k ∷ key) [] = false
matches_key (k ∷ key) (c ∷ s) = k == c && matches_key key s

unfoldable pub is_signature_line : Bytes → Bool
unfolding matches_key
is_signature_line = matches_key (codes "signature")

-- The loop over the lines: those kept, and how many were removed.
unfoldable pub strip : List Bytes → List Bytes × ℕ
strip [] = ([], 0)
strip (line ∷ lines) =
    let (kept, removed) = strip lines in
    if is_signature_line line then (kept, removed + 1) else (line ∷ kept, removed)

abbrev pub is_trailing : ℕ → Bool
is_trailing c = is_blank c || c == newline

unfoldable pub split_signature_line : Bytes → Bytes × ℕ
unfolding strip replace_crlf replace_cr
split_signature_line raw =
    let (kept, removed) = strip (split_lines newline (replace_cr (replace_crlf raw))) in
    (trim_right is_trailing (join (newline ∷ []) kept), removed)

-- `SignedBytes`
unfoldable pub signed_bytes : Bytes → Bytes
unfolding split_signature_line
signed_bytes raw = (split_signature_line raw).0

abbrev pub is_positive : ℤ → Bool
is_positive (pos n) = ltb 0 n
is_positive (negsuc _) = false

unfoldable pub is_seen : Bytes → List Bytes → Bool
is_seen id [] = false
is_seen id (j ∷ seen) = j == id || is_seen id seen

-- The guard is parsed once, here.
unfoldable pub with_guard : Collector → Result PackError Collector
with_guard c = if c.when == [] then ok c else elim (parse_when c.when) [
  | ok expr ↦ ok (record c { expr = some expr })
  | err e ↦ err (bad_guard c.id e)
]

unfoldable pub check_collector : List Bytes → Collector → Result PackError Collector
unfolding with_guard is_seen
check_collector seen c =
    if c.id == []
    then err no_id
    else if is_seen c.id seen
    then err (duplicate_id c.id)
    else if trim_space c.cmd == []
    then err (no_cmd c.id)
    else with_guard c

unfoldable pub check_collectors : List Bytes → List Collector → Result PackError (List Collector)
check_collectors seen [] = ok []
check_collectors seen (c ∷ cs) = do
  c' ← check_collector seen c
  cs' ← check_collectors (c.id ∷ seen) cs
  ok (c' ∷ cs')

abbrev pub is_empty {ℓ} : {A : Type ℓ} → List A → Bool
is_empty [] = true
is_empty (_ ∷ _) = false

unfoldable pub validate : Pack → Result PackError Pack
unfolding check_collectors
validate p =
    if not (is_positive p.version)
    then err bad_version
    else if not (p.kind == codes "inventory")
    then err bad_kind
    else if is_empty p.collectors
    then err no_collectors
    else check_collectors [] p.collectors >>= (λ cs. ok (record p { collectors = cs }))

abbrev pub or_fail : {A : Type 0} → PackError → Option A → Result PackError A
or_fail e none = err e
or_fail e (some a) = ok a

abbrev pub fail_if : Bool → PackError → Result PackError (Unit {0})
fail_if true e = err e
fail_if false e = ok tt

-- The checks behind the decoder.
unfoldable pub verify_decoded : PackCodecs → Bytes → Bytes → Pack → Result PackError Pack
verify_decoded lib signed_body pub_key p = do
  fail_if (not (length pub_key == public_key_size)) no_key
  fail_if (is_empty p.signature) unsigned
  sig ← or_fail not_base64 (lib.decode_base64 p.signature)
  fail_if (not (lib.ed25519_verify pub_key signed_body sig)) bad_signature
  validate p

unfoldable pub parse_and_verify : PackCodecs → Bytes → Bytes → Result PackError Pack
parse_and_verify lib raw pub_key =
    let (signed_body, n) = split_signature_line raw in
    do
      fail_if (is_empty raw) empty_pack
      fail_if (ltb max_pack_bytes (length raw)) too_large
      fail_if (not (n == 1)) (signature_lines n)
      p ← or_fail not_yaml (lib.unmarshal_yaml raw)
      verify_decoded lib signed_body pub_key p

pub record Skipped : Type 0 where
  pub id : Bytes
  pub reason : WhenError

abbrev pub guard_of : Collector → Result WhenError WhenExpr
guard_of c = elim c.expr [ some expr ↦ ok expr | none ↦ parse_when c.when ]

-- One round of `Select`, in front of what the later rounds gave.
abbrev pub place :
    Collector
    → Result WhenError Bool
    → List Collector × List Skipped
    → List Collector × List Skipped
place c (ok true) (run, skipped) = (c ∷ run, skipped)
place c (ok false) (run, skipped) = (run, skipped)
place c (err e) (run, skipped) = (run, record { id = c.id; reason = e } ∷ skipped)

abbrev pub verdict : Facts → Collector → Result WhenError Bool
verdict facts c = if c.when == [] then ok true else guard_of c >>= eval facts

unfoldable pub select_from : Facts → List Collector → List Collector × List Skipped
select_from facts [] = ([], [])
select_from facts (c ∷ cs) = place c (verdict facts c) (select_from facts cs)

-- `Select`
unfoldable pub select : Pack → Facts → List Collector × List Skipped
unfolding select_from
select p facts = select_from facts p.collectors
