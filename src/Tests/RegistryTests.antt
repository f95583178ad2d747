-- ===== src/Tests/RegistryTests.antt =====
-- pkg/proxy/registry.go and errors.go: two datasources, one of them replaced while it is checked.
use forager.Prelude.{
  ◌+◌, ◌≡◌, ◌≢◌, refl, true, false, String, Option, none, some, List, [], ◌∷◌, ltb, ◌==◌, nat_eq,
  string_eq, if◌then◌else◌, lookup, insert, All,
}
use forager.Prelude.Bytes.{codes}
use forager.Errors.{GoError, Regexps, is_integration_error, redact_error}
use forager.Registry.{
  Proxy, DatasourceEntry, Registry, new_registry, request_error_ttl, register, remove, get, list,
  record_request_result, recent_request_error,
}
use forager.Registry.Consistent.{
  IsConsistent, new-IsConsistent, ops-IsConsistent, report-IsConsistent,
}
use forager.Registry.Closing.{remove_lem}
use forager.Registry.Health.{Target, Check, Op, register_op, apply_op, apply_ops, health_report}
use forager.Registry.Reports.{request_failure_lem}
use forager.Registry.Successes.{Forgets, KeepsOpen}

abbrev regexps : Regexps
regexps = record { to_valid_utf8 = λ s. s; replace_all = λ p s. s }

abbrev entry : String → DatasourceEntry
entry id = record {
  id = id;
  type = "redis";
  proxy_type = "redis-proxy";
  name = id;
  credential_source = "local";
  credential_ref = "";
}

abbrev ops : List Op
ops = register_op "a" (entry "a") 1 ∷ register_op "b" (entry "b") 2 ∷ []

abbrev two : Registry
two = apply_ops regexps ops new_registry

abbrev passing : Check
passing = record { ctx_err = none; result = none; latency = 3; locked_at = 100 }

-- `a` is replaced before the lock of its round.
abbrev env : Target → List Op × Check
env t = (register_op "a" (entry "a") 3 ∷ [], passing)

report-IsConsistent_example :
    IsConsistent (health_report regexps 100 none env two).0
    × (((t : Target) → All KeepsOpen (env t).0)
        → Forgets two
        → Forgets (health_report regexps 100 none env two).0)
report-IsConsistent_example =
    report-IsConsistent regexps 100 none env (ops-IsConsistent regexps ops new-IsConsistent)

abbrev refused : GoError
refused = record {
  text = codes "dial: connection refused";
  is_network = false;
  is_unreachable = true;
}

abbrev Failure : String → Type 0
Failure id =
    ((recent_request_error 500 id (record_request_result regexps false 100 id none two)).1 ≡ none)
    × (is_integration_error (some refused) ≡ true
        → (recent_request_error 500 id
            (record_request_result regexps false 100 id (some refused) two)).1
          ≡ (if ltb (100 + request_error_ttl) 500
              then none
              else some (redact_error regexps refused.text)))
    × (is_integration_error (some refused) ≡ false
        → record_request_result regexps false 100 id (some refused) two ≡ two)
    × (record_request_result regexps true 100 id (some refused) two ≡ two)

request_failure_lem_example : Failure "b"
unfolding get apply_ops apply_op register lookup insert
request_failure_lem_example = request_failure_lem regexps 100 500 "b" two refused {p = 2} refl

abbrev fails : Proxy → Option GoError
fails p = some refused

-- `a` is refused and `b` answers; the datasource `c` is registered meanwhile.
abbrev checks : Target → List Op × Check
checks t = (
  register_op "c" (entry "c") 4 ∷ [],
  if t.id == "a" then record passing { result = some refused } else passing,
)

-- A proxy that fails to close is closed, and stays registered.
remove_lem_example :
    ((remove fails "b" two).1 ≡ some refused)
    × ((remove fails "b" two).0.closed ≡ 2 ∷ two.closed)
    × (fails 2 ≡ none
        → (get "a" (remove fails "b" two).0
            ≡ (if ◌==◌ {T = String} "b" "a" then none else get "a" two))
          × (lookup "a" (list (remove fails "b" two).0)
              ≡ (if ◌==◌ {T = String} "b" "a" then none else lookup "a" (list two)))
          × (lookup "a" (remove fails "b" two).0.last_success
              ≡ (if ◌==◌ {T = String} "b" "a" then none else lookup "a" two.last_success))
          × (lookup "a" (remove fails "b" two).0.req_errors
              ≡ (if ◌==◌ {T = String} "b" "a" then none else lookup "a" two.req_errors)))
    × (fails 2 ≢ none → (remove fails "b" two).0 ≡ record two { closed = 2 ∷ two.closed })
unfolding get apply_ops apply_op register lookup insert
remove_lem_example = remove_lem fails "b" "a" two 2 refl
