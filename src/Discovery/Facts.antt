-- ===== src/Discovery/Facts.antt =====
-- pkg/proxy/discovery/facts.go: the facts of a host, from the output of the probe. Texts are bytes,
-- and their spaces ASCII.
use forager.Prelude.{
  ℕ, Bool, false, ◌||◌, List, [], ◌∷◌, ◌++◌, Option, none, some, ◌==◌, nat_eq, if◌then◌else◌,
}
use forager.Prelude.Bytes.{Bytes, codes, bytes_eq, has_prefix, trim_space, fields}
use forager.Prelude.Text.{cut, split_lines, trim_right, find}
use forager.Discovery.When.{Facts, os_family, os_id, os_major, arch}

abbrev pub is_quote : ℕ → Bool
is_quote c = c == 0x22 || c == 0x27

unfoldable pub trim_start : (ℕ → Bool) → Bytes → Bytes
trim_start is_cut [] = []
trim_start is_cut (c ∷ s) = let rest = trim_start is_cut s in if is_cut c then rest else c ∷ s

-- strings.Trim
abbrev pub trim : (ℕ → Bool) → Bytes → Bytes
trim is_cut s = trim_right is_cut (trim_start is_cut s)

abbrev pub add_pair : Option (Bytes × Bytes) → Facts → Facts
add_pair none kv = kv
add_pair (some (key, val)) kv = (trim_space key, trim is_quote (trim_space val)) ∷ kv

unfoldable pub read_line : Bytes → Facts → Facts
unfolding trim_start
read_line text kv =
    let line = trim_space text in
    if line == [] || has_prefix (codes "#") line then kv else add_pair (cut (codes "=") line) kv

unfoldable pub read_lines : List Bytes → Facts → Facts
unfolding read_line
read_lines [] kv = kv
read_lines (line ∷ lines) kv = read_lines lines (read_line line kv)

unfoldable pub parse_os_release : Bytes → Facts
unfolding read_lines
parse_os_release s = read_lines (split_lines 10 s) []

unfoldable pub is_one_of : Bytes → List Bytes → Bool
is_one_of id [] = false
is_one_of id (j ∷ ids) = id == j || is_one_of id ids

abbrev pub rhel : List Bytes
rhel =
    codes "rhel"
    ∷ codes "centos"
    ∷ codes "rocky"
    ∷ codes "almalinux"
    ∷ codes "ol"
    ∷ codes "oracle"
    ∷ codes "amzn"
    ∷ codes "fedora"
    ∷ []

abbrev pub debian : List Bytes
debian = codes "debian" ∷ codes "ubuntu" ∷ codes "linuxmint" ∷ codes "raspbian" ∷ []

abbrev pub suse : List Bytes
suse =
    codes "sles"
    ∷ codes "sled"
    ∷ codes "opensuse"
    ∷ codes "opensuse-leap"
    ∷ codes "opensuse-tumbleweed"
    ∷ []

unfoldable pub os_family_by_id : Bytes → Option Bytes
unfolding is_one_of
os_family_by_id id =
    if is_one_of id rhel
    then some (codes "rhel")
    else if is_one_of id debian
    then some (codes "debian")
    else if is_one_of id suse
    then some (codes "suse")
    else if id == codes "alpine"
    then some (codes "alpine")
    else none

unfoldable pub family_of_likes : List Bytes → Bytes
family_of_likes [] = []
family_of_likes (like ∷ likes) =
    let rest = family_of_likes likes in
    elim (os_family_by_id like) [
      | some family ↦ family
      | none ↦ if has_prefix (codes "suse") like then codes "suse" else rest
    ]

unfoldable pub os_family_of : Bytes → Bytes → Bytes
unfolding os_family_by_id family_of_likes
os_family_of id id_like = elim (os_family_by_id id) [
  | some family ↦ family
  | none ↦ family_of_likes (fields id_like)
]

-- A key that is missing reads as the empty text.
abbrev pub value_of : Bytes → Facts → Bytes
value_of key kv = elim (find key kv) [ some v ↦ v | none ↦ [] ]

abbrev pub before : Bytes → Bytes → Bytes
before sep s = elim (cut sep s) [ some (b, _) ↦ b | none ↦ s ]

abbrev pub after : Bytes → Bytes → Bytes
after sep s = elim (cut sep s) [ some (_, a) ↦ a | none ↦ [] ]

abbrev pub add_fact : Bytes → Bytes → Facts → Facts
add_fact key [] facts = facts
add_fact key (c ∷ v) facts = (key, c ∷ v) ∷ facts

abbrev pub probe_separator : Bytes
probe_separator = 10 ∷ (codes "---" ++ (10 ∷ []))

unfoldable pub parse_facts : Bytes → Facts
unfolding parse_os_release os_family_of
parse_facts output =
    let kv = parse_os_release (before probe_separator output) in
    let id = value_of (codes "ID") kv in
    add_fact os_family (os_family_of id (value_of (codes "ID_LIKE") kv)) (
      add_fact os_major (before (codes ".") (value_of (codes "VERSION_ID") kv))
        (add_fact os_id id (add_fact arch (trim_space (after probe_separator output)) [])))
