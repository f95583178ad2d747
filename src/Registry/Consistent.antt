-- ===== src/Registry/Consistent.antt =====
-- pkg/proxy/registry.go: the maps of the registry stay together.
use forager.Prelude.{
  ℕ, ◌≡◌, refl, Bool, true, false, String, Option, none, some, List, [], ◌∷◌, arith, eq_iff, nat_eq,
  string_eq, lookup, insert, lookup-insert, lookup-delete, is_some, All,
}
use forager.Errors.{GoError, Regexps, redact_error}
use forager.Registry.{
  Proxy, DatasourceEntry, Registry, RequestError, new_registry, record_request_result,
  recent_request_error, register, remove, close_all, get, list,
}
use forager.Registry.Closing.{close_each-lookup}
use forager.Registry.Successes.{Forgets, KeepsOpen, run_checks-Forgets}
use forager.Registry.Health.{
  Target, Check, judge, check_in, check_target, Op, register_op, remove_op, result_op, close_all_op,
  apply_op, apply_ops, run_checks, health_report,
}

-- Every registered datasource has its entry, and there is no entry and no request error of one that
-- is not registered.
pub record IsConsistent (r : Registry) : Type 0 where
  pub configured : (id : String) → is_some (lookup id r.configs) ≡ is_some (lookup id r.proxies)
  pub failures : (id : String) → lookup id r.proxies ≡ none → lookup id r.req_errors ≡ none

register-IsConsistent :
    (id : String) (entry : DatasourceEntry) (p : Proxy) {r : Registry}
    → IsConsistent r
    → IsConsistent (register id entry p r)
unfolding register
register-IsConsistent id entry p {r} c = record {
  configured = λ j.
      ground
        (arith, lookup-insert id j p r.proxies, lookup-insert id j entry r.configs, c.configured j);
  failures = λ j h.
      ground (arith, lookup-insert id j p r.proxies, lookup-delete id j r.req_errors, c.failures j);
}

remove-IsConsistent :
    (close : Proxy → Option GoError) (id : String) {r : Registry}
    → IsConsistent r
    → IsConsistent (remove close id r).0
unfolding remove
remove-IsConsistent close id {r} c = record {
  configured = λ j.
      ground (arith, lookup-delete id j r.proxies, lookup-delete id j r.configs, c.configured j);
  failures = λ j h.
      ground (arith, lookup-delete id j r.proxies, lookup-delete id j r.req_errors, c.failures j);
}

result-IsConsistent :
    (re : Regexps) (ctx_done : Bool) (now : ℕ) (id : String) (err : Option GoError) {r : Registry}
    → IsConsistent r
    → IsConsistent (record_request_result re ctx_done now id err r)
unfolding record_request_result
result-IsConsistent re ctx_done now id none {r} c = record {
  configured = λ j. ground (arith, c.configured j);
  failures = λ j h. ground (arith, lookup-delete id j r.req_errors, c.failures j);
}
result-IsConsistent re ctx_done now id (some err) {r} c = record {
  configured = λ j. ground (arith, c.configured j);
  failures = λ j h.
      let e : RequestError = record { msg = redact_error re err.text; at = now } in
      ground (arith, eq_iff id j, lookup-insert id j e r.req_errors, c.failures j);
}

recent-IsConsistent :
    (now : ℕ) (id : String) {r : Registry}
    → IsConsistent r
    → IsConsistent (recent_request_error now id r).0
unfolding recent_request_error
recent-IsConsistent now id {r} c = record {
  configured = λ j. ground (arith, c.configured j);
  failures = λ j h. ground (arith, lookup-delete id j r.req_errors, c.failures j);
}

judge-IsConsistent :
    (re : Regexps) (now : ℕ) (k : Check) (result : Option GoError) (t : Target) {r : Registry}
    → IsConsistent r
    → IsConsistent (judge re now k result t r).0
judge-IsConsistent re now k (some err) t c = c
judge-IsConsistent re now k none t {r} c =
    let r' : Registry = record r { last_success = insert t.id now r.last_success } in
    recent-IsConsistent k.locked_at t.id {r = r'}
      (record { configured = c.configured; failures = c.failures })

check_in-IsConsistent :
    (re : Regexps) (now : ℕ) (k : Check) (t : Target) {r : Registry} (e : Option GoError) (b : Bool)
    → IsConsistent r
    → IsConsistent (check_in re now k t r e b).0
check_in-IsConsistent re now k t (some err) b c = c
check_in-IsConsistent re now k t none false c = c
check_in-IsConsistent re now k t none true c = judge-IsConsistent re now k k.result t c

check-IsConsistent :
    (re : Regexps) (now : ℕ) (k : Check) (t : Target) {r : Registry}
    → IsConsistent r
    → IsConsistent (check_target re now k t r).0
unfolding check_target
check-IsConsistent re now k t c = check_in-IsConsistent re now k t k.ctx_err _ c

close_all-IsConsistent : {r : Registry} → IsConsistent r → IsConsistent (close_all r)
unfolding close_all
close_all-IsConsistent {r} c = record {
  configured =
      λ j. let k = close_each-lookup r.proxies j r in ground (arith, k.0, k.1, c.configured j);
  failures =
      λ j h. let k = close_each-lookup r.proxies j r in ground (arith, k.0, k.2, c.failures j);
}

op-IsConsistent :
    (re : Regexps) (op : Op) {r : Registry} → IsConsistent r → IsConsistent (apply_op re op r)
unfolding apply_op
op-IsConsistent re (register_op id entry p) c = register-IsConsistent id entry p c
op-IsConsistent re (remove_op close id) c = remove-IsConsistent close id c
op-IsConsistent re (result_op ctx_done now id err) c = result-IsConsistent re ctx_done now id err c
op-IsConsistent re close_all_op c = close_all-IsConsistent c

-- After any operations, from any consistent registry, its maps are consistent.
pub ops-IsConsistent :
    (re : Regexps) (ops : List Op) {r : Registry}
    → IsConsistent r
    → IsConsistent (apply_ops re ops r)
unfolding apply_ops
ops-IsConsistent re [] c = c
ops-IsConsistent re (op ∷ ops) c = ops-IsConsistent re ops (op-IsConsistent re op c)

pub new-IsConsistent : IsConsistent new_registry
unfolding lookup
new-IsConsistent = record { configured = λ id. refl; failures = λ id h. refl }

run_checks-IsConsistent :
    (re : Regexps) (now : ℕ) (env : Target → List Op × Check) (ts : List Target) {r : Registry}
    → IsConsistent r
    → IsConsistent (run_checks re now env ts r).0
unfolding run_checks
run_checks-IsConsistent re now env [] c = c
run_checks-IsConsistent re now env (t ∷ ts) c =
    run_checks-IsConsistent re now env ts
      (check-IsConsistent re now (env t).1 t (ops-IsConsistent re (env t).0 c))

-- A health report keeps the registry consistent, whatever operations run between its checks,
-- `CloseAll` included, and whatever the checks give. Where none of these operations is `CloseAll`,
-- it also keeps that no datasource which is not registered has a last success.
pub report-IsConsistent :
    (re : Regexps) (now : ℕ) (ctx_err : Option GoError) (env : Target → List Op × Check)
    {r : Registry}
    → IsConsistent r
    → IsConsistent (health_report re now ctx_err env r).0
      × (((t : Target) → All KeepsOpen (env t).0)
          → Forgets r
          → Forgets (health_report re now ctx_err env r).0)
unfolding health_report
report-IsConsistent re now none env {r} c =
    (run_checks-IsConsistent re now env _ c, λ k f. run_checks-Forgets re now env _ k f)
report-IsConsistent re now (some err) env c = (c, λ k f. f)

-- After `CloseAll` of a consistent registry nothing is registered, configured or failing.
close_all_lem :
    (j : String) {r : Registry}
    → IsConsistent r
    → (get j (close_all r) ≡ none)
      × (lookup j (list (close_all r)) ≡ none)
      × (lookup j (close_all r).req_errors ≡ none)
unfolding close_all get list
close_all_lem j {r} c =
    let k = close_each-lookup r.proxies j r in
    (ground (arith, k.0), ground (arith, k.1, c.configured j), ground (arith, k.2, c.failures j))
