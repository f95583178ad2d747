-- ===== src/Discovery/Pack/Selected.antt =====
-- pkg/proxy/discovery/pack.go: which collectors of an accepted pack run on a host.
use forager.Prelude.{
  ◌≡◌, refl, ◌∙◌, Bool, Bool-cases, true, false, ◌⊎◌, inl, inr, List, [], ◌∷◌, some, none, arith,
  ◌==◌, Result, ok, err, All, All-map, All-zip, Result-cases, Listed,
}
use forager.Prelude.Bytes.{Bytes, bytes_eq, bytes_beq_iff}
use forager.Prelude.Text.{find}
use forager.Discovery.When.{WhenExpr, WhenError, not_available, Facts, parse_when, eval}
use forager.Discovery.When.Meaning.{Matches, eval-true, eval-false, eval_fails, eval_err}
use forager.Discovery.Pack.{Collector, Pack, Skipped, place, verdict, select_from, select}
use forager.Discovery.Pack.Valid.{IsUsable, IsValid}

-- No guard, or one that matches the facts.
abbrev pub IsWanted : Facts → Collector → Type 0
IsWanted facts c = (c.when ≡ []) ⊎ ((e : WhenExpr) × (parse_when c.when ≡ ok e) × Matches facts e)

-- Why a collector was skipped: a fact that is not there.
abbrev pub IsSkipped : Facts → List Skipped → Collector → Type 0
IsSkipped facts skipped c =
    (fact : Bytes) × (find fact facts ≡ none)
    × Listed (record { id = c.id; reason = not_available fact }) skipped

abbrev pub Outcome : Facts → List Collector × List Skipped → Collector → Type 0
Outcome facts (run, skipped) c =
    (IsWanted facts c × Listed c run) ⊎ (IsSkipped facts skipped c ⊎ (IsWanted facts c → ⊥))

evaluated :
    (facts : Facts) (c : Collector) (e : WhenExpr)
    → (c.when == []) ≡ false
    → parse_when c.when ≡ ok e
    → c.expr ≡ some e
    → ((verdict facts c ≡ ok true) × IsWanted facts c)
      ⊎ (((fact : Bytes) × (find fact facts ≡ none) × (verdict facts c ≡ err (not_available fact)))
          ⊎ ((verdict facts c ≡ ok false) × (IsWanted facts c → ⊥)))
evaluated facts c e guarded parsed cached =
    let same : verdict facts c ≡ eval facts e = rw (guarded, cached) refl in
    elim (Result-cases (eval facts e)) [
      | inl (true, passed) ↦ inl (same ∙ passed, inr (e, parsed, eval-true facts e passed))
      | inl (false, failed) ↦ inr (inr (same ∙ failed, unwanted failed))
      | inr (why, broken) ↦
          let (fact, is_missing) = eval_fails facts e why broken in
          let missing : eval facts e ≡ err (not_available fact) = rw (← is_missing) broken in
          inr (inl (fact, eval_err facts e fact missing, same ∙ missing))
    ]
  where
    unwanted : eval facts e ≡ ok false → IsWanted facts c → ⊥
    unwanted failed (inl blank) = ground (arith, bytes_beq_iff c.when [])
    unwanted failed (inr (e', parsed', m)) =
        let same : e' ≡ e = ground arith in eval-false facts e failed (rw (← same) m)

verdict_of :
    (facts : Facts) (c : Collector)
    → IsUsable c
    → ((verdict facts c ≡ ok true) × IsWanted facts c)
      ⊎ (((fact : Bytes) × (find fact facts ≡ none) × (verdict facts c ≡ err (not_available fact)))
          ⊎ ((verdict facts c ≡ ok false) × (IsWanted facts c → ⊥)))
verdict_of facts c usable = elim (Bool-cases (c.when == [])) [
  | inl blank ↦ inl (rw blank refl, inl ((bytes_beq_iff c.when []).0 blank))
  | inr guarded ↦ elim usable.guarded [
    | inl blank ↦ absurd (ground (arith, bytes_beq_iff c.when []))
    | inr (e, parsed, cached) ↦ evaluated facts c e guarded parsed cached
  ]
]

Outcome-behind :
    (facts : Facts) (c d : Collector) (v : Result WhenError Bool)
    (rest : List Collector × List Skipped)
    → Outcome facts rest d
    → Outcome facts (place c v rest) d
Outcome-behind facts c d (ok true) rest (inl (w, l)) = inl (w, inr l)
Outcome-behind facts c d (ok true) rest (inr o) = inr o
Outcome-behind facts c d (ok false) rest o = o
Outcome-behind facts c d (err e) rest (inl o) = inl o
Outcome-behind facts c d (err e) rest (inr (inl (f, m, l))) = inr (inl (f, m, inr l))
Outcome-behind facts c d (err e) rest (inr (inr o)) = inr (inr o)

Outcome-here :
    (facts : Facts) (c : Collector) (rest : List Collector × List Skipped)
    → IsUsable c
    → Outcome facts (place c (verdict facts c) rest) c
Outcome-here facts c rest usable = elim (verdict_of facts c usable) [
  | inl (v, wanted) ↦ rw v (inl (wanted, inl refl))
  | inr (inl (fact, missing, v)) ↦ rw v (inr (inl (fact, missing, inl refl)))
  | inr (inr (v, unwanted)) ↦ rw v (inr (inr unwanted))
]

select_from-Outcome :
    (facts : Facts) (cs : List Collector)
    → All IsUsable cs
    → All (Outcome facts (select_from facts cs)) cs
unfolding select_from
select_from-Outcome facts [] h = tt
select_from-Outcome facts (c ∷ cs) (h, hs) = (
  Outcome-here facts c (select_from facts cs) h,
  All-map (λ d o. Outcome-behind facts c d (verdict facts c) (select_from facts cs) o) cs
      (select_from-Outcome facts cs hs),
)

placed-IsWanted :
    (facts : Facts) (c : Collector) (rest : List Collector × List Skipped)
    → IsUsable c
    → All (IsWanted facts) rest.0
    → All (IsWanted facts) (place c (verdict facts c) rest).0
placed-IsWanted facts c rest usable h = elim (verdict_of facts c usable) [
  | inl (v, wanted) ↦ rw v (wanted, h)
  | inr (inl (fact, missing, v)) ↦ rw v h
  | inr (inr (v, unwanted)) ↦ rw v h
]

select_from-IsWanted :
    (facts : Facts) (cs : List Collector)
    → All IsUsable cs
    → All (IsWanted facts) (select_from facts cs).0
unfolding select_from
select_from-IsWanted facts [] h = tt
select_from-IsWanted facts (c ∷ cs) (h, hs) =
    placed-IsWanted facts c (select_from facts cs) h (select_from-IsWanted facts cs hs)

placed-Listed :
    (facts : Facts) (c : Collector) (v : Result _ Bool) (cs : List Collector)
    (rest : List Collector × List Skipped)
    → All (λ (d : Collector). Listed d cs) rest.0
    → All (λ (d : Collector). Listed d (c ∷ cs)) (place c v rest).0
placed-Listed facts c (ok true) cs rest h = (inl refl, All-map (λ d l. inr l) rest.0 h)
placed-Listed facts c (ok false) cs rest h = All-map (λ d l. inr l) rest.0 h
placed-Listed facts c (err e) cs rest h = All-map (λ d l. inr l) rest.0 h

select_from-Listed :
    (facts : Facts) (cs : List Collector)
    → All (λ (d : Collector). Listed d cs) (select_from facts cs).0
unfolding select_from
select_from-Listed facts [] = tt
select_from-Listed facts (c ∷ cs) =
    placed-Listed facts c (verdict facts c) cs (select_from facts cs) (select_from-Listed facts cs)

-- Of a valid pack, each collector either runs, and then has no guard or one that matches the facts;
-- or it is reported as skipped for a fact that was not probed; or its guard does not match. What
-- runs is a collector of the pack with no guard or one that matches, and nothing else.
pub select_lem :
    (p : Pack) (facts : Facts)
    → IsValid p
    → All (Outcome facts (select p facts)) p.collectors
      × All (λ (c : Collector). Listed c p.collectors × IsWanted facts c) (select p facts).0
unfolding select
select_lem p facts v = (
  select_from-Outcome facts p.collectors v.usable,
  All-zip (λ (c : Collector). Listed c p.collectors) (IsWanted facts)
      (select_from facts p.collectors).0 (select_from-Listed facts p.collectors)
      (select_from-IsWanted facts p.collectors v.usable),
)
