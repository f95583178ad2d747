-- ===== src/Discovery/Executor.antt =====
-- pkg/proxy/discovery/executor.go: the inventory of one host. The SSH connection is a parameter.
pub mod Commands
use forager.Prelude.{
  ℕ, ◌+◌, Bool, true, false, not, ◌||◌, String, List, [], ◌∷◌, ◌++◌, Option, none, some, ◌==◌,
  if◌then◌else◌, Result, ok, err,
}
use forager.Prelude.Bytes.{Bytes, codes, bytes_eq, contains, to_lower}
use forager.Errors.{contains_any}
use forager.Discovery.When.{Facts}
use forager.Discovery.Facts.{parse_facts}
use forager.Discovery.Pack.{Collector, Pack, Skipped, select}

pub data Status : Type 0 where
  collecting collected ssh_refused ssh_auth_failed timed_out failed : Status

-- What `runCommand` gives: each stream is cut at the cap already.
pub record Output : Type 0 where
  pub stdout : Bytes
  pub stderr : Bytes
  pub exit_code : ℕ
  pub truncated : Bool

-- `commands` lists the commands that were sent to the host, in order.
pub record TargetResult : Type 0 where
  pub host : String
  pub status : Status
  pub error_text : Bytes
  pub facts : Facts
  pub outputs : List (Bytes × Bytes)
  pub exit_codes : List (Bytes × ℕ)
  pub truncated : List (Bytes × Bool)
  pub errors : List (Bytes × Bytes)
  pub skipped : List Skipped
  pub commands : List Bytes

-- One host: how dialling it fails, what a command gives, and whether the host's time is up before
-- a round of the loop.
pub record Host : Type 0 where
  pub dial_error : Option Bytes
  pub run : Bytes → Result Bytes Output
  pub is_over : ℕ → Bool

abbrev pub facts_probe : Bytes
facts_probe = codes "cat /etc/os-release 2>/dev/null; echo \"---\"; uname -m"

abbrev pub auth_markers : List Bytes
auth_markers =
    codes "unable to authenticate"
    ∷ codes "no supported methods remain"
    ∷ codes "permission denied"
    ∷ []

abbrev pub refused_markers : List Bytes
refused_markers =
    codes "connection refused"
    ∷ codes "no route to host"
    ∷ codes "network is unreachable"
    ∷ codes "connection reset"
    ∷ []

abbrev pub timeout_markers : List Bytes
timeout_markers = codes "timeout" ∷ codes "deadline exceeded" ∷ codes "i/o timeout" ∷ []

-- `classifyDialError`
unfoldable pub classify_dial_error : Bytes → Status
classify_dial_error text =
    let msg = to_lower text in
    if contains_any auth_markers msg
    then ssh_auth_failed
    else if contains_any refused_markers msg
    then ssh_refused
    else if contains_any timeout_markers msg
    then timed_out
    else failed

abbrev pub with_stderr : Output → Bytes
with_stderr out =
    if out.stderr == []
    then out.stdout
    else out.stdout ++ ((10 ∷ (codes "[stderr]" ++ (10 ∷ []))) ++ out.stderr)

abbrev pub send : Bytes → TargetResult → TargetResult
send cmd res = record res { commands = res.commands ++ (cmd ∷ []) }

abbrev pub keep : Collector → Result Bytes Output → TargetResult → TargetResult
keep c (err text) res = record res { errors = (c.id, text) ∷ res.errors }
keep c (ok out) res = record res {
  exit_codes = (c.id, out.exit_code) ∷ res.exit_codes;
  truncated = (c.id, out.truncated) ∷ res.truncated;
  outputs = (c.id, with_stderr out) ∷ res.outputs;
}

unfoldable pub collect : Host → ℕ → List Collector → TargetResult → TargetResult
collect h round [] res = record res { status = collected }
collect h round (c ∷ cs) res =
    let rest = collect h (round + 1) cs (keep c (h.run c.cmd) (send c.cmd res)) in
    if h.is_over round
    then record res { status = timed_out; error_text = codes "host timeout during collection" }
    else rest

abbrev pub blank : String → TargetResult
blank host = record {
  host = host;
  status = collecting;
  error_text = [];
  facts = [];
  outputs = [];
  exit_codes = [];
  truncated = [];
  errors = [];
  skipped = [];
  commands = [];
}

abbrev pub probed : Host → Pack → Result Bytes Output → TargetResult → TargetResult
probed h pack (err text) res = record res {
  status = failed;
  error_text = codes "facts probe: " ++ text;
}
probed h pack (ok out) res =
    let facts = parse_facts out.stdout in
    let (run, skipped) = select pack facts in
    collect h 0 run (record res { facts = facts; skipped = skipped })

-- `inventoryHost`
unfoldable pub inventory_host : Host → String → Pack → TargetResult
unfolding collect
inventory_host h host pack = elim h.dial_error [
  | some text ↦ record (blank host) { status = classify_dial_error text; error_text = text }
  | none ↦ probed h pack (h.run facts_probe) (send facts_probe (blank host))
]
