-- ===== src/Discovery/SshAccess.antt =====
-- pkg/proxy/discovery/ssh_access.go: the SSH access sibling of a discovery datasource.
use forager.Prelude.{
  ◌≡◌, ◌≢◌, ◌∙◌, refl, inl, inr, Option-cases, lookup-insert, Bool, true, false, not, String,
  Option, none, some, List, [], ◌∷◌, ◌==◌, string_eq, arith, eq_iff, if◌then◌else◌, Map, lookup,
  insert, Result, ok, err,
}
use forager.Values.{Value, str, bool, strings, anys}

abbrev pub ssh_access_suffix : String
ssh_access_suffix = ":ssh"

unfoldable pub ssh_access_enabled : Map Value → Bool
ssh_access_enabled cfg = elim (lookup "ssh_access" cfg) [ some (bool b) ↦ b | _ ↦ false ]

abbrev pub non_empty : List String → List String
non_empty [] = []
non_empty (e ∷ es) = let rest = non_empty es in if e == "" then rest else e ∷ rest

abbrev pub only_strings : List (Option String) → List String
only_strings [] = []
only_strings (none ∷ es) = only_strings es
only_strings (some e ∷ es) = let rest = only_strings es in if e == "" then rest else e ∷ rest

unfoldable pub string_slice : Option Value → List String
string_slice (some (strings es)) = non_empty es
string_slice (some (anys es)) = only_strings es
string_slice _ = []

abbrev pub string_of : Option Value → String
string_of (some (str s)) = s
string_of _ = ""

pub data AccessError : Type 0 where
  needs_signing needs_known_hosts needs_scope : AccessError

abbrev pub copy : String → Map Value → Map Value → Map Value
copy key cfg out = elim (lookup key cfg) [ some v ↦ insert key v out | none ↦ out ]

abbrev pub access_config : List String → String → Map Value → Map Value
access_config cidrs known_hosts cfg = copy "max_output_bytes" cfg (
    copy "port" cfg (
      insert "known_hosts" (str known_hosts)
        (insert "allowed_hosts" (strings cidrs) (insert "host" (str "") []))))

abbrev pub with_scope : List String → String → Map Value → Result AccessError (Map Value)
with_scope [] known_hosts cfg = err needs_scope
with_scope (c ∷ cs) known_hosts cfg = ok (access_config (c ∷ cs) known_hosts cfg)

unfoldable pub ssh_access_config : Map Value → Bool → Result AccessError (Map Value)
unfolding string_slice
ssh_access_config cfg signing_enabled =
    if not signing_enabled
    then err needs_signing
    else (let known_hosts = string_of (lookup "known_hosts_file" cfg) in
        if known_hosts == ""
        then err needs_known_hosts
        else with_scope (string_slice (lookup "allowed_cidrs" cfg)) known_hosts cfg)

lookup-copy :
    (key j : String) (cfg out : Map Value)
    → (key == j) ≡ false
    → lookup j (copy key cfg out) ≡ lookup j out
lookup-copy key j cfg out ne = elim (Option-cases (lookup key cfg)) [
  | inl missing ↦ rw (missing, copy)
  | inr (v, found) ↦ rw (found, copy) (lookup-insert key j v out ∙ rw ne)
]

access_known_hosts :
    (cidrs : List String) (known_hosts : String) (cfg : Map Value)
    → lookup "known_hosts" (access_config cidrs known_hosts cfg) ≡ some (str known_hosts)
access_known_hosts cidrs known_hosts cfg =
    lookup-copy "max_output_bytes" "known_hosts" cfg _ refl
    ∙ lookup-copy "port" "known_hosts" cfg _ refl
    ∙ unfold lookup insert in refl

access_hosts :
    (cidrs : List String) (known_hosts : String) (cfg : Map Value)
    → lookup "allowed_hosts" (access_config cidrs known_hosts cfg) ≡ some (strings cidrs)
access_hosts cidrs known_hosts cfg =
    lookup-copy "max_output_bytes" "allowed_hosts" cfg _ refl
    ∙ lookup-copy "port" "allowed_hosts" cfg _ refl
    ∙ unfold lookup insert in refl

with_scope-eq-ok :
    (cidrs : List String) (known_hosts : String) (cfg out : Map Value)
    → with_scope cidrs known_hosts cfg ≡ ok out
    → (cidrs ≢ []) × (out ≡ access_config cidrs known_hosts cfg)
with_scope-eq-ok [] known_hosts cfg out h = cc
with_scope-eq-ok (c ∷ cs) known_hosts cfg out h = (cc, cc)

-- Access is configured only when messages are signed, with a file of known hosts, and with a scope
-- that is not empty and is the allowed scope of the datasource.
pub ssh_access_config_lem :
    (cfg out : Map Value) (signing_enabled : Bool)
    → ssh_access_config cfg signing_enabled ≡ ok out
    → (signing_enabled ≡ true)
      × (string_of (lookup "known_hosts" out) ≢ "")
      × (lookup "known_hosts" out ≡ lookup "known_hosts_file" cfg)
      × (string_slice (lookup "allowed_cidrs" cfg) ≢ [])
      × (lookup "allowed_hosts" out ≡ some (strings (string_slice (lookup "allowed_cidrs" cfg))))
unfolding ssh_access_config
ssh_access_config_lem cfg out b h =
    let known = string_of (lookup "known_hosts_file" cfg) in
    let cidrs = string_slice (lookup "allowed_cidrs" cfg) in
    let scoped : with_scope cidrs known cfg ≡ ok out = ground arith in
    let (ne, e) = with_scope-eq-ok cidrs known cfg out scoped in
    (
      ground arith,
      rw (e, access_known_hosts) (ground (arith, eq_iff known "")),
      rw (e, access_known_hosts) (ground (arith, eq_iff known "")),
      ne,
      rw e (access_hosts cidrs known cfg),
    )
