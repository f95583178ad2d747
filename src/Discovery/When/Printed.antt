-- ===== src/Discovery/When/Printed.antt =====
-- pkg/proxy/discovery/when.go: a guard that is written out is parsed back.
use mathlib.Core.List.{reverse, reverse-append, reverse-cons, reverse-reverse, append_assoc}
use forager.Prelude.{
  ℕ, ◌≡◌, ◌≢◌, ◌⊎◌, inl, inr, refl, ◌∙◌, ap, sym, Bool, true, false, List, [], ◌∷◌, ◌++◌, some,
  none, arith, nat_eq, if◌then◌else◌, ok, All, All-append,
}
use forager.Prelude.Bytes.{Bytes, codes, bytes_eq, bytes_beq, trim_space, trim_left, is_space}
use forager.Prelude.Text.{cut, Lacks, cut-append, cut_lacking, cut_none-append}
use forager.Discovery.When.{
  Op, equal, differs, Comparison, WhenExpr, is_known, os_family, os_id, os_major, arch, take_last,
  quote, apostrophe, has_quote, unquote, build, parse_comparison,
}

-- A guard as a pack's author writes it.
abbrev pub symbol : Op → Bytes
symbol equal = codes " == "
symbol differs = codes " != "

abbrev pub print_comparison : Comparison → Bytes
print_comparison c = c.fact ++ (symbol c.op ++ (quote ∷ (c.value ++ (quote ∷ []))))

abbrev pub print_ands : List Comparison → Bytes
print_ands [] = []
print_ands (c ∷ []) = print_comparison c
print_ands (c ∷ d ∷ cs) = print_comparison c ++ (codes " && " ++ print_ands (d ∷ cs))

abbrev pub print_when : WhenExpr → Bytes
print_when [] = []
print_when (ands ∷ []) = print_ands ands
print_when (ands ∷ more ∷ ors) = print_ands ands ++ (codes " || " ++ print_when (more ∷ ors))

-- No quote, no byte of `&&` and `||`, and no `=`.
abbrev pub IsPlain : ℕ → Type 0
IsPlain c = (c ≢ quote) × (c ≢ apostrophe) × (c ≢ b'&') × (c ≢ b'|') × (c ≢ b'=')

abbrev pub IsFact : Bytes → Type 0
IsFact fact = (fact ≡ os_family) ⊎ ((fact ≡ os_id) ⊎ ((fact ≡ os_major) ⊎ (fact ≡ arch)))

abbrev pub IsPrintable : Comparison → Type 0
IsPrintable c = IsFact c.fact × All IsPlain c.value

-- One space, or none.
abbrev pub pad : Bool → Bytes
pad b = if b then b' ' ∷ [] else []

trim_left-pad :
    (b : Bool) (x : ℕ) (s : Bytes) → is_space x ≡ false → trim_left (pad b ++ (x ∷ s)) ≡ x ∷ s
unfolding trim_left
trim_left-pad true x s h = ground arith
trim_left-pad false x s h = ground arith

reverse-pad : (b : Bool) (y : ℕ) (s : Bytes) → reverse (s ++ (y ∷ pad b)) ≡ pad b ++ (y ∷ reverse s)
reverse-pad true y s = reverse-append s (y ∷ pad true)
reverse-pad false y s = reverse-append s (y ∷ [])

pub trim-pad :
    (l r : Bool) (x y : ℕ) (mid : Bytes)
    → is_space x ≡ false
    → is_space y ≡ false
    → trim_space (pad l ++ (x ∷ (mid ++ (y ∷ pad r)))) ≡ x ∷ (mid ++ (y ∷ []))
unfolding trim_space
trim-pad l r x y mid hx hy =
    rw
      (
        trim_left-pad l x (mid ++ (y ∷ pad r)) hx,
        reverse-pad r y (x ∷ mid),
        trim_left-pad r y (reverse (x ∷ mid)) hy,
        reverse-cons y (reverse (x ∷ mid)),
        reverse-reverse (x ∷ mid),
      )
      refl

take_last-append : (c y : ℕ) (s : Bytes) → take_last c (s ++ (y ∷ [])) ≡ (c ∷ s, y)
unfolding take_last
take_last-append c y [] = refl
take_last-append c y (d ∷ s) = rw (take_last-append d y s) refl

has_quote_plain : (s : Bytes) → All IsPlain s → has_quote s ≡ false
unfolding has_quote
has_quote_plain [] h = refl
has_quote_plain (c ∷ s) h = ground (arith, has_quote_plain s h.1)

unquote_plain : (s : Bytes) → All IsPlain s → unquote (quote ∷ (s ++ (quote ∷ []))) ≡ ok s
unfolding unquote
unquote_plain [] h = refl
unquote_plain (c ∷ s) h = rw (take_last-append c quote s, has_quote_plain (c ∷ s) h) refl

-- What the proofs need of a fact's name.
pub record IsName (fact : Bytes) : Type 0 where
  pub first : ℕ
  pub rest : Bytes
  pub is_cons : fact ≡ first ∷ rest
  pub solid : is_space first ≡ false
  pub no_equals : Lacks b'=' fact
  pub no_bang : Lacks b'!' fact
  pub no_and : Lacks b'&' fact
  pub no_or : Lacks b'|' fact
  pub trimmed : trim_space (fact ++ (b' ' ∷ [])) ≡ fact
  pub known : is_known fact ≡ true

os_family-IsName : IsName os_family
unfolding trim_space is_known bytes_beq
os_family-IsName = record {
  first = b'o';
  rest = codes "s_family";
  is_cons = refl;
  solid = refl;
  no_equals = omega arith;
  no_bang = omega arith;
  no_and = omega arith;
  no_or = omega arith;
  trimmed = refl;
  known = refl;
}

os_id-IsName : IsName os_id
unfolding trim_space is_known bytes_beq
os_id-IsName = record {
  first = b'o';
  rest = codes "s_id";
  is_cons = refl;
  solid = refl;
  no_equals = omega arith;
  no_bang = omega arith;
  no_and = omega arith;
  no_or = omega arith;
  trimmed = refl;
  known = refl;
}

os_major-IsName : IsName os_major
unfolding trim_space is_known bytes_beq
os_major-IsName = record {
  first = b'o';
  rest = codes "s_major";
  is_cons = refl;
  solid = refl;
  no_equals = omega arith;
  no_bang = omega arith;
  no_and = omega arith;
  no_or = omega arith;
  trimmed = refl;
  known = refl;
}

arch-IsName : IsName arch
unfolding trim_space is_known bytes_beq
arch-IsName = record {
  first = b'a';
  rest = codes "rch";
  is_cons = refl;
  solid = refl;
  no_equals = omega arith;
  no_bang = omega arith;
  no_and = omega arith;
  no_or = omega arith;
  trimmed = refl;
  known = refl;
}

pub IsFact-IsName : (fact : Bytes) → IsFact fact → IsName fact
IsFact-IsName fact (inl e) = rw e os_family-IsName
IsFact-IsName fact (inr (inl e)) = rw e os_id-IsName
IsFact-IsName fact (inr (inr (inl e))) = rw e os_major-IsName
IsFact-IsName fact (inr (inr (inr e))) = rw e arch-IsName

plain-Lacks : (s : Bytes) → All IsPlain s → Lacks b'=' s
plain-Lacks [] h = tt
plain-Lacks (c ∷ s) (h, hs) = (h.4, plain-Lacks s hs)

parse_equal :
    (text : Bytes) {s : Bytes} {parts : Bytes × Bytes} {c : Comparison}
    → trim_space text ≡ s
    → cut (codes "==") s ≡ some parts
    → build equal parts ≡ ok c
    → parse_comparison text ≡ ok c
unfolding parse_comparison
parse_equal text trimmed found built = ground (arith)

parse_differs :
    (text : Bytes) {s : Bytes} {parts : Bytes × Bytes} {c : Comparison}
    → trim_space text ≡ s
    → cut (codes "==") s ≡ none
    → cut (codes "!=") s ≡ some parts
    → build differs parts ≡ ok c
    → parse_comparison text ≡ ok c
unfolding parse_comparison
parse_differs text trimmed missing found built = ground (arith)

module _ (fact value : Bytes) (name : IsName fact) (plain : All IsPlain value) where
  unfoldable pub quoted : Bytes
  quoted = quote ∷ (value ++ (quote ∷ []))

  build-quoted :
      (op : Op)
      → build op (fact ++ (b' ' ∷ []), b' ' ∷ quoted)
        ≡ ok (record { fact = fact; op = op; value = value })
  unfolding build quoted is_space
  build-quoted op =
      rw
        (
          name.trimmed,
          name.known,
          trim-pad true false quote quote value refl refl,
          unquote_plain value plain,
        )
        refl

  spaced : (b : ℕ) → (b' ' ≢ b) → Lacks b fact → Lacks b (fact ++ (b' ' ∷ []))
  spaced b ne h = All-append (λ c. c ≢ b) fact (b' ' ∷ []) h (ne, tt)

  cut_equal :
      cut (codes "==") (fact ++ (symbol equal ++ quoted))
      ≡ some (fact ++ (b' ' ∷ []), b' ' ∷ quoted)
  cut_equal =
      ap (cut (codes "==")) (sym (append_assoc fact (b' ' ∷ []) (codes "== " ++ quoted)))
      ∙ cut-append b'=' b'=' (fact ++ (b' ' ∷ [])) (b' ' ∷ quoted)
          (spaced b'=' (omega arith) name.no_equals)

  quoted-Lacks : Lacks b'=' (value ++ (quote ∷ []))
  quoted-Lacks =
      All-append (λ c. c ≢ b'=') value (quote ∷ []) (plain-Lacks value plain) (omega arith, tt)

  no_equals_sign : cut (codes "==") (codes " != " ++ quoted) ≡ none
  unfolding quoted cut
  no_equals_sign = rw (cut_lacking b'=' (b'=' ∷ []) (value ++ (quote ∷ [])) quoted-Lacks) refl

  cut_differs :
      (cut (codes "==") (fact ++ (symbol differs ++ quoted)) ≡ none)
      × (cut (codes "!=") (fact ++ (symbol differs ++ quoted))
          ≡ some (fact ++ (b' ' ∷ []), b' ' ∷ quoted))
  cut_differs = (
    cut_none-append b'=' (b'=' ∷ []) fact (codes " != " ++ quoted) name.no_equals no_equals_sign,
    ap (cut (codes "!=")) (sym (append_assoc fact (b' ' ∷ []) (codes "!= " ++ quoted)))
        ∙ cut-append b'!' b'=' (fact ++ (b' ' ∷ [])) (b' ' ∷ quoted)
            (spaced b'!' (omega arith) name.no_bang),
  )

  trim_printed :
      (l r : Bool) (op : Bytes)
      → trim_space (pad l ++ ((fact ++ (op ++ quoted)) ++ pad r)) ≡ fact ++ (op ++ quoted)
  unfolding quoted is_space
  trim_printed l r op =
      let mid = name.rest ++ (op ++ (quote ∷ value)) in
      let text : (z : Bytes) → fact ++ (op ++ (quote ∷ (value ++ z))) ≡ name.first ∷ (mid ++ z) =
        λ z. rw name.is_cons (simp append_assoc) in
      rw
        (
          append_assoc fact,
          append_assoc op,
          append_assoc value,
          text (quote ∷ pad r),
          trim-pad l r name.first quote mid name.solid refl,
          text (quote ∷ []),
        )
        refl

  pub parse_printed :
      (l r : Bool) (op : Op)
      → parse_comparison (pad l ++ ((fact ++ (symbol op ++ quoted)) ++ pad r))
        ≡ ok (record { fact = fact; op = op; value = value })
  parse_printed l r equal =
      parse_equal _ (trim_printed l r (symbol equal)) cut_equal (build-quoted equal)
  parse_printed l r differs =
      parse_differs _ (trim_printed l r (symbol differs)) cut_differs.0 cut_differs.1
        (build-quoted differs)

  pub printed-All :
      (P : ℕ → Type 0) (op : Bytes)
      → All P fact
      → All P op
      → P quote
      → All P value
      → All P (fact ++ (op ++ quoted))
  unfolding quoted
  printed-All P op f o q v = All-append P fact (op ++ (quote ∷ (value ++ (quote ∷ [])))) f (
      All-append P op (quote ∷ (value ++ (quote ∷ []))) o
        (q, All-append P value (quote ∷ []) v (q, tt)))
