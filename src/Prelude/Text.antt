-- ===== src/Prelude/Text.antt =====
-- More of Go's `strings`, on bytes: Cut, Split, TrimRight, and maps whose keys are texts.
use Prim.Native.Nat.{ℕ, zero, suc, ◌-◌}
use mathlib.Core.Path.{◌≡◌, refl}
use mathlib.Core.Bool.{Bool, true, false}
use mathlib.Core.Logic.{◌≢◌, inl, inr}
use mathlib.Core.List.{List, [], ◌∷◌, ◌++◌}
use mathlib.Core.Option.{Option, none, some}
use native.Mathlib.Omega.{arith}
use forager.Prelude.Tests.{◌==◌, nat_eq, if◌then◌else◌, Bool-cases}
use forager.Prelude.Lists.{length, All}
use forager.Prelude.Bytes.{Bytes, bytes_eq, has_prefix}

unfoldable pub drop : ℕ → Bytes → Bytes
drop zero s = s
drop (suc n) [] = []
drop (suc n) (c ∷ s) = drop n s

abbrev pub cons_before : ℕ → Option (Bytes × Bytes) → Option (Bytes × Bytes)
cons_before c none = none
cons_before c (some (before, after)) = some (c ∷ before, after)

-- strings.Cut(s, sep), with a separator that is not empty: `none` where it does not occur.
unfoldable pub cut : Bytes → Bytes → Option (Bytes × Bytes)
unfolding has_prefix drop
cut sep [] = none
cut sep (c ∷ s) =
    let rest = cut sep s in
    if has_prefix sep (c ∷ s) then some ([], drop (length sep) (c ∷ s)) else cons_before c rest

abbrev pub cons_first : ℕ → List Bytes → List Bytes
cons_first c [] = (c ∷ []) ∷ []
cons_first c (w ∷ ws) = (c ∷ w) ∷ ws

-- strings.Split(s, sep), behind `skip` bytes that belong to a separator.
unfoldable pub split_after : Bytes → ℕ → Bytes → List Bytes
unfolding has_prefix
split_after sep skip [] = [] ∷ []
split_after sep (suc skip) (c ∷ s) = split_after sep skip s
split_after sep zero (c ∷ s) = elim (has_prefix sep (c ∷ s)) [
  | true ↦ [] ∷ split_after sep (length sep - 1) s
  | false ↦ cons_first c (split_after sep zero s)
]

unfoldable pub split : Bytes → Bytes → List Bytes
unfolding split_after
split sep s = split_after sep zero s

-- strings.TrimRight(s, cutset)
abbrev pub cons_unless : Bool → ℕ → Bytes → Bytes
cons_unless is_cut c [] = if is_cut then [] else c ∷ []
cons_unless is_cut c (d ∷ s) = c ∷ d ∷ s

unfoldable pub trim_right : (ℕ → Bool) → Bytes → Bytes
trim_right is_cut [] = []
trim_right is_cut (c ∷ s) = cons_unless (is_cut c) c (trim_right is_cut s)

-- A map with texts as keys: the latest entry of a key is found first.
unfoldable pub find {ℓ} : {V : Type ℓ} → Bytes → List (Bytes × V) → Option V
find k [] = none
find k ((j, v) ∷ m) = if j == k then some v else find k m

abbrev pub Lacks : ℕ → Bytes → Type 0
Lacks b = All (λ c. c ≢ b)

-- Behind a part that lacks the first byte of the separator comes the next part.
pub split-append :
    (x y : ℕ) (part s : Bytes)
    → Lacks x part
    → split (x ∷ y ∷ []) (part ++ (x ∷ y ∷ s)) ≡ part ∷ split (x ∷ y ∷ []) s
unfolding split has_prefix
split-append x y [] s h = ground arith
split-append x y (c ∷ part) s h = ground (arith, split-append x y part s h.1)

pub split_last : (x : ℕ) (seps part : Bytes) → Lacks x part → split (x ∷ seps) part ≡ part ∷ []
unfolding split has_prefix
split_last x seps [] h = refl
split_last x seps (c ∷ part) h = ground (arith, split_last x seps part h.1)

-- A cut at a two-byte separator whose first byte does not occur before it.
pub cut-append :
    (x y : ℕ) (part s : Bytes)
    → Lacks x part
    → cut (x ∷ y ∷ []) (part ++ (x ∷ y ∷ s)) ≡ some (part, s)
unfolding cut
cut-append x y [] s h = ground arith
cut-append x y (c ∷ part) s h = ground (arith, cut-append x y part s h.1)

pub cut_lacking : (x : ℕ) (seps s : Bytes) → Lacks x s → cut (x ∷ seps) s ≡ none
unfolding cut
cut_lacking x seps [] h = refl
cut_lacking x seps (c ∷ s) h = ground (arith, cut_lacking x seps s h.1)

pub cut_none-append :
    (x : ℕ) (seps part s : Bytes)
    → Lacks x part
    → cut (x ∷ seps) s ≡ none
    → cut (x ∷ seps) (part ++ s) ≡ none
unfolding cut
cut_none-append x seps [] s h none_in = none_in
cut_none-append x seps (c ∷ part) s h none_in =
    ground (arith, cut_none-append x seps part s h.1 none_in)

-- strings.Split(s, sep) with a separator of one byte.
unfoldable pub split_lines : ℕ → Bytes → List Bytes
split_lines sep [] = [] ∷ []
split_lines sep (c ∷ s) =
    let rest = split_lines sep s in if c == sep then [] ∷ rest else cons_first c rest

pub split_lines_cons :
    (sep : ℕ) (s : Bytes) → (w : Bytes) × (ws : List Bytes) × (split_lines sep s ≡ w ∷ ws)
unfolding split_lines
split_lines_cons sep [] = ([], [], refl)
split_lines_cons sep (c ∷ s) = elim (Bool-cases (c == sep)) [
  | inl end ↦ ([], split_lines sep s, ground arith)
  | inr inside ↦ let (w, ws, e) = split_lines_cons sep s in (c ∷ w, ws, ground arith)
]

pub split_lines_lacking : (sep : ℕ) (s : Bytes) → Lacks sep s → split_lines sep s ≡ s ∷ []
unfolding split_lines
split_lines_lacking sep [] h = refl
split_lines_lacking sep (c ∷ s) h = ground (arith, split_lines_lacking sep s h.1)

-- What follows the last separator is a part of its own.
pub split_lines-append :
    (sep : ℕ) (s part : Bytes)
    → Lacks sep part
    → split_lines sep (s ++ (sep ∷ part)) ≡ split_lines sep s ++ (part ∷ [])
unfolding split_lines
split_lines-append sep [] part h = ground (arith, split_lines_lacking sep part h)
split_lines-append sep (c ∷ s) part h =
    let (w, ws, e) = split_lines_cons sep s in ground (arith, split_lines-append sep s part h)

pub trim_right-append :
    (is_cut : ℕ → Bool) (s : Bytes) (c : ℕ)
    → is_cut c ≡ true
    → trim_right is_cut (s ++ (c ∷ [])) ≡ trim_right is_cut s
unfolding trim_right
trim_right-append is_cut [] c h = ground arith
trim_right-append is_cut (d ∷ s) c h = ground (arith, trim_right-append is_cut s c h)
