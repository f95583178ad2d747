-- ===== src/Registry/Health.antt =====
-- pkg/proxy/registry.go: `HealthReport`. The operations that other goroutines run between two checks
-- are an explicit list.
use forager.Prelude.{
  ℕ, Bool, true, false, String, Option, none, some, List, [], ◌∷◌, ◌==◌, nat_eq, Map, lookup,
  insert,
}
use forager.Prelude.Bytes.{Bytes}
use forager.Errors.{GoError, ErrorClass, Regexps, error_class, redact_error}
use forager.Registry.{
  Proxy, DatasourceEntry, Registry, recent_request_error, record_request_result, register, remove,
  close_all,
}

pub data Status : Type 0 where
  healthy error : Status

pub record DatasourceHealth : Type 0 where
  pub type : String
  pub proxy_type : String
  pub name : String
  pub status : Status
  pub error_text : Option Bytes
  pub error_class : Option ErrorClass
  pub last_check : ℕ
  pub reachable : Bool
  pub latency_ms : ℕ
  pub last_success : Option ℕ

pub record Target : Type 0 where
  pub id : String
  pub proxy : Proxy
  pub cfg : DatasourceEntry

-- The snapshot under the read lock.
abbrev pub add_target : String → Proxy → Option DatasourceEntry → List Target → List Target
add_target id p none ts = ts
add_target id p (some cfg) ts = record { id = id; proxy = p; cfg = cfg } ∷ ts

unfoldable pub targets_of : Map Proxy → Map DatasourceEntry → List Target
targets_of [] configs = []
targets_of ((id, p) ∷ rest) configs = add_target id p (lookup id configs) (targets_of rest configs)

-- The report of a check that was not made because the context was done.
abbrev pub cancelled : Regexps → ℕ → GoError → Target → DatasourceHealth
cancelled re now err t = record {
  type = t.cfg.type;
  proxy_type = t.cfg.proxy_type;
  name = t.cfg.name;
  status = error;
  error_text = some (redact_error re err.text);
  error_class = some (error_class t.cfg.proxy_type);
  last_check = now;
  reachable = false;
  latency_ms = 0;
  last_success = none;
}

-- What a worker sees of one check: `ctx.Err()` before it, the result of `HealthCheck` (a panic is an
-- error), how long it took, and the clock when the lock is held.
pub record Check : Type 0 where
  pub ctx_err : Option GoError
  pub result : Option GoError
  pub latency : ℕ
  pub locked_at : ℕ

abbrev pub is_current : Option Proxy → Proxy → Bool
is_current none p = false
is_current (some q) p = q == p

abbrev pub failing : Regexps → ℕ → Check → GoError → Target → Registry → DatasourceHealth
failing re now c err t r = record {
  type = t.cfg.type;
  proxy_type = t.cfg.proxy_type;
  name = t.cfg.name;
  status = error;
  error_text = some (redact_error re err.text);
  error_class = some (error_class t.cfg.proxy_type);
  last_check = now;
  reachable = false;
  latency_ms = c.latency;
  last_success = lookup t.id r.last_success;
}

abbrev pub answering : ℕ → Check → Target → Option Bytes → DatasourceHealth
answering now c t none = record {
  type = t.cfg.type;
  proxy_type = t.cfg.proxy_type;
  name = t.cfg.name;
  status = healthy;
  error_text = none;
  error_class = none;
  last_check = now;
  reachable = true;
  latency_ms = c.latency;
  last_success = some now;
}
answering now c t (some msg) = record {
  type = t.cfg.type;
  proxy_type = t.cfg.proxy_type;
  name = t.cfg.name;
  status = error;
  error_text = some msg;
  error_class = some (error_class t.cfg.proxy_type);
  last_check = now;
  reachable = true;
  latency_ms = c.latency;
  last_success = some now;
}

-- Under the lock, with the proxy still registered.
abbrev pub judge :
    Regexps → ℕ → Check → Option GoError → Target → Registry → Registry × DatasourceHealth
judge re now c (some err) t r = (r, failing re now c err t r)
judge re now c none t r =
    let r' = record r { last_success = insert t.id now r.last_success } in
    let (r'', recent) = recent_request_error c.locked_at t.id r' in (r'', answering now c t recent)

-- By `ctx.Err()` before the check, and by the test that the proxy is still the registered one.
abbrev pub check_in :
    Regexps
    → ℕ
    → Check
    → Target
    → Registry
    → Option GoError
    → Bool
    → Registry × Option DatasourceHealth
check_in re now c t r (some err) current = (r, some (cancelled re now err t))
check_in re now c t r none false = (r, none)
check_in re now c t r none true = let (r', h) = judge re now c c.result t r in (r', some h)

-- One round of a worker; `none` is a superseded datasource.
unfoldable pub check_target :
    Regexps → ℕ → Check → Target → Registry → Registry × Option DatasourceHealth
check_target re now c t r =
    check_in re now c t r c.ctx_err (is_current (lookup t.id r.proxies) t.proxy)

-- An operation of another goroutine.
pub data Op : Type 0 where
  register_op : String → DatasourceEntry → Proxy → Op
  remove_op : (Proxy → Option GoError) → String → Op
  result_op : Bool → ℕ → String → Option GoError → Op
  close_all_op : Op

unfoldable pub apply_op : Regexps → Op → Registry → Registry
apply_op re (register_op id entry p) r = register id entry p r
apply_op re (remove_op close id) r = (remove close id r).0
apply_op re (result_op ctx_done now id err) r = record_request_result re ctx_done now id err r
apply_op re close_all_op r = close_all r

unfoldable pub apply_ops : Regexps → List Op → Registry → Registry
apply_ops re [] r = r
apply_ops re (op ∷ ops) r = apply_ops re ops (apply_op re op r)

abbrev pub add_health :
    String → Option DatasourceHealth → Map DatasourceHealth → Map DatasourceHealth
add_health id none report = report
add_health id (some h) report = insert id h report

abbrev pub cancel_all : Regexps → ℕ → GoError → List Target → Map DatasourceHealth
cancel_all re now err [] = []
cancel_all re now err (t ∷ ts) = insert t.id (cancelled re now err t) (cancel_all re now err ts)

-- The rounds of the workers, in the order in which they hold the lock. `env t` lists what others do
-- before the lock of `t`'s round, and what its check gives.
unfoldable pub run_checks :
    Regexps
    → ℕ
    → (Target → List Op × Check)
    → List Target
    → Registry
    → Registry × Map DatasourceHealth
run_checks re now env [] r = (r, [])
run_checks re now env (t ∷ ts) r =
    let (ops, c) = env t in
    let (r', h) = check_target re now c t (apply_ops re ops r) in
    let (r'', report) = run_checks re now env ts r' in (r'', add_health t.id h report)

unfoldable pub health_report :
    Regexps
    → ℕ
    → Option GoError
    → (Target → List Op × Check)
    → Registry
    → Registry × Map DatasourceHealth
health_report re now ctx_err env r =
    let targets = targets_of r.proxies r.configs in
    elim ctx_err [
      | some err ↦ (r, cancel_all re now err targets)
      | none ↦ run_checks re now env targets r
    ]
