-- ===== src/Tests/PackTests.antt =====
-- pkg/proxy/discovery: a pack of one guarded collector, and a host that matches it.
use forager.Prelude.{
  ℕ, ◌≡◌, ◌↔◌, inl, inr, refl, Bool, true, false, List, [], ◌∷◌, ◌++◌, Option, none, some, arith,
  String, Map, lookup, ok, err, All, Listed,
}
use forager.Prelude.Int.{pos}
use forager.Prelude.Bytes.{Bytes, codes, bytes_beq, has_prefix, trim_space, fields, join}
use forager.Prelude.Text.{find, cut, split, split_lines, trim_right}
use forager.Discovery.When.{
  equal, differs, Comparison, WhenExpr, not_available, unknown_fact, Facts, os_family, os_major,
  arch, eval, parse_when, parse_ands, parse_comparison,
}
use forager.Discovery.When.Meaning.{Matches, IsProbed, eval_lem}
use forager.Discovery.When.Printed.{print_when}
use forager.Discovery.When.RoundTrip.{IsTerm, parse_when-print_when}
use forager.Discovery.Pack.{
  Collector, Pack, PackCodecs, newline, split_signature_line, is_signature_line, parse_and_verify,
  verify_decoded, validate, check_collectors, check_collector, with_guard, select,
}
use forager.Discovery.Pack.Valid.{IsValid, IsAccepted, parse_and_verify-IsAccepted}
use forager.Discovery.Pack.Selected.{Outcome, IsWanted, select_lem}
use forager.Discovery.Facts.{parse_facts}
use forager.Discovery.Executor.{Host, Output, TargetResult, inventory_host}
use forager.Discovery.Params.{
  Param, text, number, scalar, items, string_slice_param, all_texts, int_param,
}
use forager.Discovery.Proxy.{
  Net, is_target_allowed, resolve_pack, load_pack, verify_pack, cached_pack,
}
use forager.Discovery.Proxy.Trusted.{IsTrusted, IsVerified, packs_trusted}
use forager.Discovery.Proxy.History.{
  PackOp, configure_op, request_op, apply_pack_op, run_pack_ops, keys_of,
}
use forager.Discovery.Inventory.{
  Datasource, Batch, rejection, handle_inventory, run_batch, partition_targets, run_inventory,
  health_check, actions,
}
use forager.Discovery.Inventory.Results.{IsReported, times, hosts_of, handle_inventory_lem}

abbrev is_rhel : Comparison
is_rhel = record { fact = os_family; op = equal; value = codes "rhel" }

abbrev not_seven : Comparison
not_seven = record { fact = os_major; op = differs; value = codes "7" }

abbrev guard : WhenExpr
guard =
    (is_rhel ∷ not_seven ∷ []) ∷ (record { fact = arch; op = equal; value = codes "arm" } ∷ []) ∷ []

abbrev probed_facts : Facts
probed_facts = (os_family, codes "rhel") ∷ (os_major, codes "9") ∷ (arch, codes "x86_64") ∷ []

guard_text :
    print_when guard ≡ codes "os_family == \"rhel\" && os_major != \"7\" || arch == \"arm\""
guard_text = refl

-- A comparison that fails keeps `eval` from asking for a fact that was not probed.
fact_not_asked : eval ((os_family, codes "suse") ∷ []) ((is_rhel ∷ not_seven ∷ []) ∷ []) ≡ ok false
unfolding eval find bytes_beq
fact_not_asked = refl

-- A value with the other operator in it is not parsed.
operator_in_value : parse_when (codes "os_id != 'a==b'") ≡ err (unknown_fact (codes "os_id != 'a"))
unfolding parse_when parse_ands parse_comparison trim_space cut split has_prefix bytes_beq
operator_in_value = refl

eval_lem_example :
    (All (All (IsProbed probed_facts)) guard
      → ((b : Bool) × (eval probed_facts guard ≡ ok b))
        × ((eval probed_facts guard ≡ ok true) ↔ Matches probed_facts guard))
    × (eval probed_facts guard ≡ ok true → Matches probed_facts guard)
    × ((fact : Bytes)
        → eval probed_facts guard ≡ err (not_available fact)
        → find fact probed_facts ≡ none)
eval_lem_example = eval_lem probed_facts guard

guard_terms : All IsTerm guard
guard_terms = (
  ((λ e. cc), ((inl refl, omega arith), ((inr (inr (inl refl)), omega arith), tt))),
  (((λ e. cc), ((inr (inr (inr refl)), omega arith), tt)), tt),
)

parse_when-print_when_example : parse_when (print_when guard) ≡ ok guard
parse_when-print_when_example = parse_when-print_when guard (λ e. cc) guard_terms

abbrev document : Bytes
document = codes "version: 1" ++ (newline ∷ codes "kind: inventory")

abbrev collector : Option WhenExpr → Collector
collector expr = record {
  id = codes "rpm";
  when = codes "os_family == 'rhel'";
  cmd = codes "rpm -qa";
  expr = expr;
}

abbrev pack : Option WhenExpr → Pack
pack expr = record {
  version = pos 1;
  kind = codes "inventory";
  collectors = collector expr ∷ [];
  signature = codes "c2ln";
}

abbrev loaded : Pack
loaded = pack (some ((is_rhel ∷ []) ∷ []))

abbrev codecs : PackCodecs
codecs = record {
  unmarshal_yaml = λ s. some (pack none);
  decode_base64 = λ s. some s;
  ed25519_verify = λ key body sig. true;
}

abbrev signed : Bytes
signed = document ++ (newline ∷ (codes "signature: c2ln" ++ (newline ∷ [])))

abbrev key : Bytes
key = codes "0123456789abcdef0123456789abcdef"

accepted : parse_and_verify codecs signed key ≡ ok loaded
unfolding parse_and_verify verify_decoded validate check_collectors check_collector with_guard
    bytes_beq split_signature_line split_lines is_signature_line join trim_right parse_when
    parse_ands parse_comparison trim_space cut split has_prefix
accepted = refl

parse_and_verify-IsAccepted_example : IsAccepted codecs signed key loaded
parse_and_verify-IsAccepted_example = parse_and_verify-IsAccepted codecs signed key loaded accepted

loaded-IsValid : IsValid loaded
loaded-IsValid = (parse_and_verify-IsAccepted codecs signed key loaded accepted).valid

select_lem_example :
    All (Outcome probed_facts (select loaded probed_facts)) loaded.collectors
    × All
        (λ (c : Collector). Listed c loaded.collectors × IsWanted probed_facts c)
        (select loaded probed_facts).0
select_lem_example = select_lem loaded probed_facts loaded-IsValid

abbrev release : Output
release = record {
  stdout =
      codes "ID=rocky"
      ++ (newline
          ∷ (codes "VERSION_ID=\"9.3\""
              ++ (newline ∷ (codes "---" ++ (newline ∷ codes "x86_64")))));
  stderr = [];
  exit_code = 0;
  truncated = false;
}

facts_of_release : find os_family (parse_facts release.stdout) ≡ some (codes "rhel")
unfolding parse_facts find bytes_beq cut has_prefix split_lines trim_space trim_right fields
facts_of_release = refl

abbrev host : Host
host = record { dial_error = none; run = λ cmd. ok release; is_over = λ round. false }

abbrev net : Net
net = record {
  parse_cidr = λ s. none;
  parse_ip = λ s. none;
  net_contains = λ n ip. false;
  lookup_host = λ s. none;
}

abbrev batch : Batch
batch = record {
  net = net;
  codecs = codecs;
  files = λ n. some signed;
  hosts = λ t. host;
  looked_up = λ t. true;
  started = λ t. true;
}

abbrev datasource : Datasource
datasource = record {
  scope = record { nets = []; hosts = "db.internal" ∷ [] };
  packs = record { cached = []; pub_key = some key; has_dir = true };
  has_ssh = true;
  has_ldap = false;
}

abbrev request : Map Param
request =
    ("targets", items (text "web.internal" ∷ text "db.internal" ∷ []))
    ∷ ("content_pack_version", scalar (number (pos 1)))
    ∷ []

-- One target is out of the scope; the other is collected from.
abbrev results : List TargetResult
results = inventory_host host "db.internal" loaded ∷ rejection "web.internal" ∷ []

answered : (handle_inventory batch request datasource).1 ≡ ok (pos 1, results)
unfolding handle_inventory run_batch partition_targets run_inventory is_target_allowed resolve_pack
    load_pack verify_pack cached_pack string_slice_param all_texts int_param lookup parse_and_verify
    verify_decoded validate check_collectors check_collector with_guard bytes_beq
    split_signature_line split_lines is_signature_line join trim_right parse_when parse_ands
    parse_comparison trim_space cut split has_prefix
answered = refl

trusted : IsTrusted codecs (key ∷ []) datasource.packs
trusted = record { has_key = λ k e. inl (ground arith); packs = tt }

-- The document was verified and cached under the first key, and the key was changed since.
abbrev history : List PackOp
history =
    configure_op (some (codes "another key of thirty-two bytes.")) true
    ∷ request_op (λ n. some signed) request
    ∷ configure_op (some key) true
    ∷ []

pack_is_cached : (run_pack_ops codecs history).cached ≡ (1, loaded) ∷ []
unfolding run_pack_ops apply_pack_op resolve_pack load_pack verify_pack cached_pack int_param lookup
    parse_and_verify verify_decoded validate check_collectors check_collector with_guard bytes_beq
    split_signature_line split_lines is_signature_line join trim_right parse_when parse_ands
    parse_comparison trim_space cut split has_prefix
pack_is_cached = refl

packs_trusted_example :
    All
      (λ (e : ℕ × Pack). IsVerified codecs (keys_of history) e.0 e.1)
      (run_pack_ops codecs history).cached
    × ((p : Pack)
        → (resolve_pack codecs (λ n. none) request (run_pack_ops codecs history)).1 ≡ ok p
        → (n : ℕ) × (int_param "content_pack_version" request ≡ some (pos n))
          × IsVerified codecs (keys_of history) n p)
packs_trusted_example = packs_trusted codecs history (λ n. none) request

handle_inventory_lem_example :
    (targets : List String) × (n : ℕ) × (p : Pack) × (string_slice_param "targets" request
      ≡ ok targets)
    × (pos 1 ≡ pos n)
    × (int_param "content_pack_version" request ≡ some (pos n))
    × IsVerified codecs (key ∷ []) n p
    × ((t : String) → times t (hosts_of results) ≡ times t targets)
    × All (IsReported batch datasource.scope p) results
handle_inventory_lem_example =
    handle_inventory_lem batch (key ∷ []) request datasource (pos 1) results trusted answered

abbrev no_ssh_yet : Datasource
no_ssh_yet = record datasource { has_ssh = false; scope = record { nets = []; hosts = [] } }

unhealthy : health_check no_ssh_yet ≡ some ("ssh credentials" ∷ [])
unfolding health_check
unhealthy = refl

sweeps_only : actions no_ssh_yet ≡ "discovery_sweep" ∷ []
unfolding actions
sweeps_only = refl
