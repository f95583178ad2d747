-- ===== src/Discovery/When/Meaning.antt =====
-- pkg/proxy/discovery/when.go: what a guard means, and how `eval` decides it.
use forager.Prelude.{
  ◌≡◌, ◌↔◌, ◌⊎◌, inl, inr, refl, Bool, Bool-cases, true, false, List, [], ◌∷◌, Option-cases, none,
  some, arith, if◌then◌else◌, ok, err, All, bind-eq-ok, bind-eq-err,
}
use forager.Prelude.Bytes.{Bytes, bytes_eq}
use forager.Prelude.Text.{find}
use forager.Discovery.When.{
  Comparison, WhenExpr, WhenError, not_available, Facts, holds, eval_ands, eval,
}

-- The comparison holds of a fact that was probed.
abbrev pub Holds : Facts → Comparison → Type 0
Holds facts c = (got : Bytes) × (find c.fact facts ≡ some got) × (holds c.op got c.value ≡ true)

-- Some term of the guard has all its comparisons hold.
abbrev pub Matches : Facts → WhenExpr → Type 0
Matches facts [] = ⊥
Matches facts (ands ∷ ors) = All (Holds facts) ands ⊎ Matches facts ors

abbrev pub IsProbed : Facts → Comparison → Type 0
IsProbed facts c = (got : Bytes) × (find c.fact facts ≡ some got)

eval_ands-true :
    (facts : Facts) (cs : List Comparison) → eval_ands facts cs ≡ ok true → All (Holds facts) cs
unfolding eval_ands
eval_ands-true facts [] h = tt
eval_ands-true facts (c ∷ cs) h = elim (Option-cases (find c.fact facts)) [
  | inl missing ↦ ground (arith)
  | inr (got, found) ↦ elim (Bool-cases (holds c.op got c.value)) [
    | inl true_of ↦ ((got, found, true_of), eval_ands-true facts cs (ground arith))
    | inr false_of ↦ ground arith
  ]
]

eval_ands_complete :
    (facts : Facts) (cs : List Comparison) → All (Holds facts) cs → eval_ands facts cs ≡ ok true
unfolding eval_ands
eval_ands_complete facts [] h = refl
eval_ands_complete facts (c ∷ cs) ((got, found, true_of), hs) =
    ground (arith, eval_ands_complete facts cs hs)

eval_ands_total :
    (facts : Facts) (cs : List Comparison)
    → All (IsProbed facts) cs
    → (b : Bool) × (eval_ands facts cs ≡ ok b)
unfolding eval_ands
eval_ands_total facts [] h = (true, refl)
eval_ands_total facts (c ∷ cs) ((got, found), hs) = elim (Bool-cases (holds c.op got c.value)) [
  | inl true_of ↦ let rest = eval_ands_total facts cs hs in (rest.0, ground (arith))
  | inr false_of ↦ (false, ground (arith))
]

pub eval-true : (facts : Facts) (e : WhenExpr) → eval facts e ≡ ok true → Matches facts e
unfolding eval
eval-true facts [] h = ground arith
eval-true facts (ands ∷ ors) h =
    let step =
      bind-eq-ok (eval_ands facts ands) (λ all. if all then ok true else eval facts ors) h in
    elim (Bool-cases step.0) [
      | inl all ↦ inl (eval_ands-true facts ands (cc))
      | inr some_not ↦ inr (eval-true facts ors (ground arith))
    ]

eval_ands_err :
    (facts : Facts) (cs : List Comparison) (fact : Bytes)
    → eval_ands facts cs ≡ err (not_available fact)
    → find fact facts ≡ none
unfolding eval_ands
eval_ands_err facts [] fact h = ground arith
eval_ands_err facts (c ∷ cs) fact h = elim (Option-cases (find c.fact facts)) [
  | inl missing ↦ let same : c.fact ≡ fact = ground arith in rw (← same) missing
  | inr (got, found) ↦ elim (Bool-cases (holds c.op got c.value)) [
    | inl true_of ↦ eval_ands_err facts cs fact (ground arith)
    | inr false_of ↦ ground arith
  ]
]

pub eval_err :
    (facts : Facts) (e : WhenExpr) (fact : Bytes)
    → eval facts e ≡ err (not_available fact)
    → find fact facts ≡ none
unfolding eval
eval_err facts [] fact h = ground arith
eval_err facts (ands ∷ ors) fact h =
    elim (bind-eq-err (eval_ands facts ands) (λ all. if all then ok true else eval facts ors) h) [
      | inl first ↦ eval_ands_err facts ands fact first
      | inr (true, passed, later) ↦ ground arith
      | inr (false, passed, later) ↦ eval_err facts ors fact later
    ]

eval_complete :
    (facts : Facts) (e : WhenExpr)
    → All (All (IsProbed facts)) e
    → ((b : Bool) × (eval facts e ≡ ok b)) × (Matches facts e → eval facts e ≡ ok true)
unfolding eval
eval_complete facts [] h = ((false, refl), λ m. absurd m)
eval_complete facts (ands ∷ ors) (h, hs) =
    let (b, first) = eval_ands_total facts ands h in
    let ((b', rest), complete) = eval_complete facts ors hs in
    elim (Bool-cases b) [
      | inl all ↦ ((true, ground arith), λ m. ground arith)
      | inr some_not ↦ (
        (b', ground arith),
        λ m. elim m [
          | inl now ↦ ground (arith, eval_ands_complete facts ands now)
          | inr later ↦ ground (arith, complete later)
        ],
      )
    ]

eval_ands_fails :
    (facts : Facts) (cs : List Comparison) (e : WhenError)
    → eval_ands facts cs ≡ err e
    → (fact : Bytes) × (e ≡ not_available fact)
unfolding eval_ands
eval_ands_fails facts [] e h = ground arith
eval_ands_fails facts (c ∷ cs) e h = elim (Option-cases (find c.fact facts)) [
  | inl missing ↦ (c.fact, ground arith)
  | inr (got, found) ↦ elim (Bool-cases (holds c.op got c.value)) [
    | inl true_of ↦ eval_ands_fails facts cs e (ground arith)
    | inr false_of ↦ ground arith
  ]
]

-- No guard fails but for a fact.
pub eval_fails :
    (facts : Facts) (e : WhenExpr) (why : WhenError)
    → eval facts e ≡ err why
    → (fact : Bytes) × (why ≡ not_available fact)
unfolding eval
eval_fails facts [] why h = ground arith
eval_fails facts (ands ∷ ors) why h =
    elim (bind-eq-err (eval_ands facts ands) (λ all. if all then ok true else eval facts ors) h) [
      | inl first ↦ eval_ands_fails facts ands why first
      | inr (true, passed, later) ↦ ground arith
      | inr (false, passed, later) ↦ eval_fails facts ors why later
    ]

pub eval-false : (facts : Facts) (e : WhenExpr) → eval facts e ≡ ok false → Matches facts e → ⊥
unfolding eval
eval-false facts [] h m = m
eval-false facts (ands ∷ ors) h (inl now) = ground (arith, eval_ands_complete facts ands now)
eval-false facts (ands ∷ ors) h (inr later) =
    let step =
      bind-eq-ok (eval_ands facts ands) (λ all. if all then ok true else eval facts ors) h in
    elim (Bool-cases step.0) [
      | inl all ↦ ground arith
      | inr some_not ↦ eval-false facts ors (ground arith) later
    ]

-- Where every fact that the guard names was probed, it evaluates without error, and to true exactly
-- when some term has all its comparisons hold. A guard that evaluates to true has such a term
-- whatever was probed, and an error names a fact that was not.
pub eval_lem :
    (facts : Facts) (e : WhenExpr)
    → (All (All (IsProbed facts)) e
        → ((b : Bool) × (eval facts e ≡ ok b)) × ((eval facts e ≡ ok true) ↔ Matches facts e))
      × (eval facts e ≡ ok true → Matches facts e)
      × ((fact : Bytes) → eval facts e ≡ err (not_available fact) → find fact facts ≡ none)
eval_lem facts e = (
  λ h. let (total, complete) = eval_complete facts e h in (total, (eval-true facts e, complete)),
  eval-true facts e,
  λ fact h. eval_err facts e fact h,
)
