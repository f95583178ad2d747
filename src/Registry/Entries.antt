-- ===== src/Registry/Entries.antt =====
-- pkg/proxy/registry.go: what the entries of a health report say.
use forager.Prelude.{
  ℕ, ◌+◌, ◌≤◌, ◌<◌, ◌≡◌, ◌⊎◌, true, false, String, Option, none, some, List, [], ◌∷◌, nat_eq,
  string_eq, lookup,
}
use forager.Errors.{GoError, Regexps, error_class, redact_error}
use forager.Registry.{Registry, RequestError, request_error_ttl}
use forager.Registry.Health.{
  healthy, error, DatasourceHealth, Target, Check, Op, check_target, apply_ops,
}

abbrev pub Describes : ℕ → Target → DatasourceHealth → Type 0
Describes now t h =
    (h.type ≡ t.cfg.type)
    × (h.proxy_type ≡ t.cfg.proxy_type)
    × (h.name ≡ t.cfg.name)
    × (h.last_check ≡ now)

-- In error, for this reason, and not reachable.
abbrev pub IsDown : Regexps → GoError → ℕ → Option ℕ → Target → DatasourceHealth → Type 0
IsDown re err latency last t h =
    (h.status ≡ error)
    × (h.error_text ≡ some (redact_error re err.text))
    × (h.error_class ≡ some (error_class t.cfg.proxy_type))
    × (h.reachable ≡ false)
    × (h.latency_ms ≡ latency)
    × (h.last_success ≡ last)

abbrev pub IsUp : ℕ → Check → DatasourceHealth → Type 0
IsUp now k h = (h.reachable ≡ true) × (h.latency_ms ≡ k.latency) × (h.last_success ≡ some now)

-- A request failed in the fifteen minutes before the lock of the check.
abbrev pub IsRecent : Check → Target → Registry → RequestError → Type 0
IsRecent k t r e = (lookup t.id r.req_errors ≡ some e) × (k.locked_at ≤ e.at + request_error_ttl)

-- What an entry says of the check that made it, and of the registry at the lock of that check.
pub record IsFaithful (re : Regexps) (now : ℕ) (k : Check) (t : Target) (r : Registry)
    (h : DatasourceHealth) : Type 0 where
  pub described : Describes now t h
  pub registered : k.ctx_err ≡ none → lookup t.id r.proxies ≡ some t.proxy
  pub not_checked : (err : GoError) → k.ctx_err ≡ some err → IsDown re err 0 none t h
  pub failed :
      (err : GoError)
      → k.ctx_err ≡ none
      → k.result ≡ some err
      → IsDown re err k.latency (lookup t.id r.last_success) t h
  pub passed : k.ctx_err ≡ none → k.result ≡ none → IsUp now k h
  pub passed_failing :
      (e : RequestError)
      → k.ctx_err ≡ none
      → k.result ≡ none
      → IsRecent k t r e
      → (h.status ≡ error)
        × (h.error_text ≡ some e.msg)
        × (h.error_class ≡ some (error_class t.cfg.proxy_type))
  pub passed_clean :
      k.ctx_err ≡ none
      → k.result ≡ none
      → ((e : RequestError)
          → lookup t.id r.req_errors ≡ some e
          → e.at + request_error_ttl < k.locked_at)
      → (h.status ≡ healthy) × (h.error_text ≡ none) × (h.error_class ≡ none)

module _ (re : Regexps) (now : ℕ) (env : Target → List Op × Check) where
  -- The registry `r'` that the round of the target `t` finds at its lock.
  abbrev pub LockedAt : List Target → Registry → Target → Registry → Type 0
  LockedAt [] r t r' = ⊥
  LockedAt (u ∷ us) r t r' =
      ((t ≡ u) × (r' ≡ apply_ops re (env u).0 r))
      ⊎ LockedAt us (check_target re now (env u).1 u (apply_ops re (env u).0 r)).0 t r'

  abbrev pub Entry : List Target → Registry → String → DatasourceHealth → Type 0
  Entry ts r id h =
      (t : Target) × (r' : Registry) × (t.id ≡ id)
      × LockedAt ts r t r'
      × IsFaithful re now (env t).1 t r' h
