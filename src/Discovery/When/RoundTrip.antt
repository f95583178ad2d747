-- ===== src/Discovery/When/RoundTrip.antt =====
-- pkg/proxy/discovery/when.go: `parseWhen` gives back a guard that was written out.
use mathlib.Core.Path.{subst}
use mathlib.Core.List.{append_assoc, append-nil}
use forager.Prelude.{
  ℕ, ◌≡◌, ◌≢◌, refl, ◌∙◌, ap, sym, Bool, true, false, List, [], ◌∷◌, ◌++◌, arith, ok, All,
  All-append,
}
use forager.Prelude.Bytes.{Bytes, codes, trim_space, is_space, bytes_eq, bytes_beq_iff}
use forager.Prelude.Text.{split, Lacks, split-append, split_last}
use forager.Discovery.When.{
  Op, equal, differs, Comparison, WhenExpr, quote, parse_comparison, parse_ands, parse_ors,
  parse_when,
}
use forager.Discovery.When.Printed.{
  symbol, print_comparison, print_ands, print_when, IsPlain, IsPrintable, pad, trim-pad,
  IsFact-IsName, parse_printed, printed-All, quoted,
}

parse_comparison_padded :
    (l r : Bool) (c : Comparison)
    → IsPrintable c
    → parse_comparison (pad l ++ (print_comparison c ++ pad r)) ≡ ok c
unfolding quoted
parse_comparison_padded l r c (f, v) =
    parse_printed c.fact c.value (IsFact-IsName c.fact f) v l r c.op

plain-All : (b : ℕ) (s : Bytes) → All IsPlain s → ((c : ℕ) → IsPlain c → c ≢ b) → Lacks b s
plain-All b [] h f = tt
plain-All b (c ∷ s) (h, hs) f = (f c h, plain-All b s hs f)

symbol-Lacks : (op : Op) → Lacks b'&' (symbol op) × Lacks b'|' (symbol op)
symbol-Lacks equal = omega arith
symbol-Lacks differs = omega arith

comparison-Lacks :
    (c : Comparison)
    → IsPrintable c
    → Lacks b'&' (print_comparison c) × Lacks b'|' (print_comparison c)
unfolding quoted
comparison-Lacks c (f, v) =
    let name = IsFact-IsName c.fact f in
    (
      printed-All c.fact c.value name v (λ x. x ≢ b'&') (symbol c.op) name.no_and
          (symbol-Lacks c.op).0 (omega arith) (plain-All b'&' c.value v (λ x h. h.2)),
      printed-All c.fact c.value name v (λ x. x ≢ b'|') (symbol c.op) name.no_or
          (symbol-Lacks c.op).1 (omega arith) (plain-All b'|' c.value v (λ x h. h.3)),
    )

padded-Lacks :
    (b : ℕ) (l r : Bool) (s : Bytes) → b' ' ≢ b → Lacks b s → Lacks b (pad l ++ (s ++ pad r))
padded-Lacks b l r s ne h =
    let space = λ (x : Bool). pad-Lacks x in
    All-append (λ c. c ≢ b) (pad l) (s ++ pad r) (space l)
      (All-append (λ c. c ≢ b) s (pad r) h (space r))
  where
    pad-Lacks : (x : Bool) → Lacks b (pad x)
    pad-Lacks true = (ne, tt)
    pad-Lacks false = tt

-- A part, its separator of two bytes, and what follows, in the form that `split` takes apart.
regroup :
    (l r : Bool) (x y : ℕ) (part rest : Bytes)
    → pad l ++ ((part ++ ((b' ' ∷ x ∷ y ∷ b' ' ∷ []) ++ rest)) ++ pad r)
      ≡ (pad l ++ (part ++ pad true)) ++ (x ∷ y ∷ (pad true ++ (rest ++ pad r)))
regroup l r x y part rest = simp append_assoc

split_regroup :
    (l r : Bool) (x y : ℕ) (part rest : Bytes)
    → b' ' ≢ x
    → Lacks x part
    → split (x ∷ y ∷ []) (pad l ++ ((part ++ ((b' ' ∷ x ∷ y ∷ b' ' ∷ []) ++ rest)) ++ pad r))
      ≡ (pad l ++ (part ++ pad true)) ∷ split (x ∷ y ∷ []) (pad true ++ (rest ++ pad r))
split_regroup l r x y part rest ne h =
    ap (split (x ∷ y ∷ [])) (regroup l r x y part rest)
    ∙ split-append x y (pad l ++ (part ++ pad true)) (pad true ++ (rest ++ pad r))
        (padded-Lacks x l true part ne h)

parse_ands_printed :
    (l r : Bool) (c : Comparison) (cs : List Comparison)
    → All IsPrintable (c ∷ cs)
    → parse_ands (split (codes "&&") (pad l ++ (print_ands (c ∷ cs) ++ pad r))) ≡ ok (c ∷ cs)
unfolding parse_ands
parse_ands_printed l r c [] (h, _) =
    rw
      (
        split_last b'&' (b'&' ∷ []) (pad l ++ (print_comparison c ++ pad r))
            (padded-Lacks b'&' l r (print_comparison c) (omega arith) (comparison-Lacks c h).0),
        parse_comparison_padded l r c h,
      )
      refl
parse_ands_printed l r c (d ∷ cs) (h, hs) =
    rw
      (
        split_regroup l r b'&' b'&' (print_comparison c) (print_ands (d ∷ cs)) (omega arith)
            (comparison-Lacks c h).0,
        parse_comparison_padded l true c h,
        parse_ands_printed true r d cs hs,
      )
      refl

ands-Lacks : (cs : List Comparison) → All IsPrintable cs → Lacks b'|' (print_ands cs)
ands-Lacks [] h = tt
ands-Lacks (c ∷ []) (h, _) = (comparison-Lacks c h).1
ands-Lacks (c ∷ d ∷ cs) (h, hs) =
    All-append (λ x. x ≢ b'|') (print_comparison c) (codes " && " ++ print_ands (d ∷ cs))
      (comparison-Lacks c h).1
      (All-append (λ x. x ≢ b'|') (codes " && ") (print_ands (d ∷ cs)) (omega arith)
        (ands-Lacks (d ∷ cs) hs))

-- A term has a comparison, and each is printable.
abbrev pub IsTerm : List Comparison → Type 0
IsTerm cs = (cs ≢ []) × All IsPrintable cs

term_printed :
    (l r : Bool) (cs : List Comparison)
    → IsTerm cs
    → parse_ands (split (codes "&&") (pad l ++ (print_ands cs ++ pad r))) ≡ ok cs
term_printed l r [] (ne, h) = absurd (ne refl)
term_printed l r (c ∷ cs) (ne, h) = parse_ands_printed l r c cs h

parse_ors_printed :
    (l : Bool) (ands : List Comparison) (ors : WhenExpr)
    → All IsTerm (ands ∷ ors)
    → parse_ors (split (codes "||") (pad l ++ (print_when (ands ∷ ors) ++ pad false)))
      ≡ ok (ands ∷ ors)
unfolding parse_ors
parse_ors_printed l ands [] (h, _) =
    rw
      (
        split_last b'|' (b'|' ∷ []) (pad l ++ (print_ands ands ++ pad false))
            (padded-Lacks b'|' l false (print_ands ands) (omega arith) (ands-Lacks ands h.1)),
        term_printed l false ands h,
      )
      refl
parse_ors_printed l ands (more ∷ ors) (h, hs) =
    rw
      (
        split_regroup l false b'|' b'|' (print_ands ands) (print_when (more ∷ ors)) (omega arith)
            (ands-Lacks ands h.1),
        term_printed l true ands h,
        parse_ors_printed true more ors hs,
      )
      refl

-- What begins with no space and ends with a quote.
record IsSolid (s : Bytes) : Type 0 where
  first : ℕ
  mid : Bytes
  solid : is_space first ≡ false
  is_text : s ≡ first ∷ (mid ++ (quote ∷ []))

append-IsSolid : (a sep b : Bytes) → IsSolid a → IsSolid b → IsSolid (a ++ (sep ++ b))
append-IsSolid a sep b p q = record {
  first = p.first;
  mid = p.mid ++ (quote ∷ (sep ++ (q.first ∷ q.mid)));
  solid = p.solid;
  is_text = rw (p.is_text, q.is_text) (simp append_assoc);
}

comparison-IsSolid : (c : Comparison) → IsPrintable c → IsSolid (print_comparison c)
comparison-IsSolid c (f, v) =
    let name = IsFact-IsName c.fact f in
    record {
      first = name.first;
      mid = name.rest ++ (symbol c.op ++ (quote ∷ c.value));
      solid = name.solid;
      is_text = rw name.is_cons (simp append_assoc);
    }

ands-IsSolid : (cs : List Comparison) → IsTerm cs → IsSolid (print_ands cs)
ands-IsSolid [] h = absurd (h.0 refl)
ands-IsSolid (c ∷ []) h = comparison-IsSolid c h.1.0
ands-IsSolid (c ∷ d ∷ cs) (ne, (h, hs)) =
    append-IsSolid (print_comparison c) (codes " && ") (print_ands (d ∷ cs))
      (comparison-IsSolid c h) (ands-IsSolid (d ∷ cs) ((λ e. cc), hs))

when-IsSolid :
    (ands : List Comparison) (ors : WhenExpr)
    → All IsTerm (ands ∷ ors)
    → IsSolid (print_when (ands ∷ ors))
when-IsSolid ands [] (h, _) = ands-IsSolid ands h
when-IsSolid ands (more ∷ ors) (h, hs) =
    append-IsSolid (print_ands ands) (codes " || ") (print_when (more ∷ ors)) (ands-IsSolid ands h)
      (when-IsSolid more ors hs)

trim_solid : (s : Bytes) → IsSolid s → trim_space s ≡ s
unfolding is_space
trim_solid s h =
    ap trim_space h.is_text ∙ trim-pad false false h.first quote h.mid h.solid refl ∙ sym h.is_text

parse_trimmed :
    (text : Bytes) (e : WhenExpr)
    → trim_space text ≡ text
    → text ≢ []
    → parse_ors (split (codes "||") text) ≡ ok e
    → parse_when text ≡ ok e
unfolding parse_when
parse_trimmed text e trimmed ne parsed = rw trimmed (ground (arith, bytes_beq_iff text []))

-- A guard of at least one term, each of at least one comparison of a known fact with a text that
-- has no quote and none of the bytes of the operators `==`, `&&` and `||`, is parsed back from its
-- printed form.
pub parse_when-print_when :
    (e : WhenExpr) → e ≢ [] → All IsTerm e → parse_when (print_when e) ≡ ok e
parse_when-print_when [] ne h = absurd (ne refl)
parse_when-print_when (ands ∷ ors) ne h =
    let text = print_when (ands ∷ ors) in
    let solid = when-IsSolid ands ors h in
    parse_trimmed text (ands ∷ ors) (trim_solid text solid)
      (λ empty.
        let e : solid.first ∷ (solid.mid ++ (quote ∷ [])) ≡ [] = sym solid.is_text ∙ empty in cc)
      (subst (λ s. parse_ors (split (codes "||") s) ≡ ok (ands ∷ ors)) (append-nil text)
        (parse_ors_printed false ands ors h))
