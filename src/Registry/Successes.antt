-- ===== src/Registry/Successes.antt =====
-- pkg/proxy/registry.go: the last successes of datasources that are no longer registered.
use forager.Prelude.{
  ℕ, ◌≡◌, refl, Bool, true, false, String, Option, none, some, List, [], ◌∷◌, arith, eq_iff, nat_eq,
  string_eq, lookup, insert, lookup-insert, lookup-delete, is_some, All,
}
use forager.Errors.{GoError, Regexps}
use forager.Registry.{
  Proxy, Registry, record_request_result, recent_request_error, register, remove,
}
use forager.Registry.Health.{
  Target, Check, judge, is_current, check_in, check_target, Op, register_op, remove_op, result_op,
  close_all_op, apply_op, apply_ops, run_checks,
}

-- There is no last success of a datasource that is not registered.
pub record Forgets (r : Registry) : Type 0 where
  pub forgets : (id : String) → lookup id r.proxies ≡ none → lookup id r.last_success ≡ none

-- Any operation but `CloseAll`, which leaves the last successes as they are.
abbrev pub KeepsOpen : Op → Type 0
KeepsOpen close_all_op = ⊥
KeepsOpen (register_op id entry p) = Unit {0}
KeepsOpen (remove_op close id) = Unit {0}
KeepsOpen (result_op ctx_done now id err) = Unit {0}

pub is_current-is_some : (o : Option Proxy) (p : Proxy) → is_current o p ≡ true → is_some o ≡ true
is_current-is_some none p h = h
is_current-is_some (some q) p h = refl

op-Forgets :
    (re : Regexps) (op : Op) {r : Registry} → KeepsOpen op → Forgets r → Forgets (apply_op re op r)
unfolding apply_op register remove record_request_result
op-Forgets re (register_op id entry p) {r} k f = record {
  forgets = λ j h.
      ground
        (arith, lookup-insert id j p r.proxies, lookup-delete id j r.last_success, f.forgets j);
}
op-Forgets re (remove_op close id) {r} k f = record {
  forgets = λ j h.
      ground (arith, lookup-delete id j r.proxies, lookup-delete id j r.last_success, f.forgets j);
}
op-Forgets re (result_op ctx_done now id none) k f = record {
  forgets = λ j h. ground (arith, f.forgets j);
}
op-Forgets re (result_op ctx_done now id (some err)) k f = record {
  forgets = λ j h. ground (arith, f.forgets j);
}
op-Forgets re close_all_op k f = absurd k

ops-Forgets :
    (re : Regexps) (ops : List Op) {r : Registry}
    → All KeepsOpen ops
    → Forgets r
    → Forgets (apply_ops re ops r)
unfolding apply_ops
ops-Forgets re [] k f = f
ops-Forgets re (op ∷ ops) k f = ops-Forgets re ops k.1 (op-Forgets re op k.0 f)

success-Forgets :
    (now : ℕ) (id : String) {r : Registry}
    → is_some (lookup id r.proxies) ≡ true
    → Forgets r
    → Forgets (record r { last_success = insert id now r.last_success })
success-Forgets now id {r} here f = record {
  forgets = λ j h. ground (arith, eq_iff id j, lookup-insert id j now r.last_success, f.forgets j);
}

recent-Forgets :
    (now : ℕ) (id : String) {r : Registry} → Forgets r → Forgets (recent_request_error now id r).0
unfolding recent_request_error
recent-Forgets now id f = record { forgets = λ j h. ground (arith, f.forgets j) }

judge-Forgets :
    (re : Regexps) (now : ℕ) (k : Check) (result : Option GoError) (t : Target) {r : Registry}
    → is_some (lookup t.id r.proxies) ≡ true
    → Forgets r
    → Forgets (judge re now k result t r).0
judge-Forgets re now k (some err) t here f = f
judge-Forgets re now k none t {r} here f =
    let r' : Registry = record r { last_success = insert t.id now r.last_success } in
    recent-Forgets k.locked_at t.id {r = r'} (success-Forgets now t.id here f)

check_in-Forgets :
    (re : Regexps) (now : ℕ) (k : Check) (t : Target) {r : Registry} (e : Option GoError) (b : Bool)
    → is_current (lookup t.id r.proxies) t.proxy ≡ b
    → Forgets r
    → Forgets (check_in re now k t r e b).0
check_in-Forgets re now k t (some err) b h f = f
check_in-Forgets re now k t none false h f = f
check_in-Forgets re now k t {r} none true h f =
    judge-Forgets re now k k.result t (is_current-is_some (lookup t.id r.proxies) t.proxy h) f

-- The rounds of a health report keep this, where none of the operations between them is `CloseAll`.
pub run_checks-Forgets :
    (re : Regexps) (now : ℕ) (env : Target → List Op × Check) (ts : List Target) {r : Registry}
    → ((t : Target) → All KeepsOpen (env t).0)
    → Forgets r
    → Forgets (run_checks re now env ts r).0
unfolding run_checks check_target
run_checks-Forgets re now env [] k f = f
run_checks-Forgets re now env (t ∷ ts) {r} k f =
    let r' = apply_ops re (env t).0 r in
    let c = (env t).1 in
    run_checks-Forgets re now env ts k (
      check_in-Forgets re now c t c.ctx_err (is_current (lookup t.id r'.proxies) t.proxy) refl
        (ops-Forgets re (env t).0 (k t) f))
