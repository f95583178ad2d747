-- ===== src/Prelude/Keyed.antt =====
-- Maps with one entry for a key, as a Go map is, and sums over their values.
use Prim.Native.Nat.{ℕ, ◌+◌, ◌≤◌}
use Prim.Native.String.{String}
use mathlib.Core.Path.{◌≡◌, refl, subst}
use mathlib.Core.Bool.{Bool}
use mathlib.Core.Logic.{inl, inr}
use mathlib.Core.List.{List, [], ◌∷◌}
use mathlib.Core.Option.{none, some}
use native.Mathlib.Omega.{arith}
use text.Mathlib.TextEquality.{eq_iff}
use forager.Prelude.Tests.{◌==◌, nat_eq, string_eq, if◌then◌else◌, Bool-cases}
use forager.Prelude.Lists.{length, All}
use forager.Prelude.Maps.{Map, lookup, insert, delete, lookup-delete}

abbrev pub one_if : Bool → ℕ
one_if b = if b then 1 else 0

-- How often a number stands in a list.
abbrev pub count : ℕ → List ℕ → ℕ
count c [] = 0
count c (d ∷ ds) = one_if (d == c) + count c ds

module _ {ℓ} {V : Type ℓ} where
  abbrev pub IsKeyed : Map V → Type ℓ
  IsKeyed [] = Unit
  IsKeyed ((k, _) ∷ m) = (lookup k m ≡ none) × IsKeyed m

  abbrev pub total : (V → ℕ) → Map V → ℕ
  total w [] = 0
  total w ((_, v) ∷ m) = w v + total w m

  pub lookup_empty : (k : String) → lookup {V = V} k [] ≡ none
  unfolding lookup
  lookup_empty k = refl

  pub lookup-delete_absent :
      (k j : String) (m : Map V) → lookup j m ≡ none → lookup j (delete k m) ≡ none
  lookup-delete_absent k j m h = ground (arith, lookup-delete k j m)

  pub lookup-delete_self : (k : String) (m : Map V) → lookup k (delete k m) ≡ none
  lookup-delete_self k m = ground (arith, lookup-delete k k m, eq_iff k k)

  pub delete-IsKeyed : (k : String) (m : Map V) → IsKeyed m → IsKeyed (delete k m)
  unfolding delete
  delete-IsKeyed k [] h = tt
  delete-IsKeyed k ((j, e) ∷ m) h =
      ground (arith, delete-IsKeyed k m h.1, lookup-delete_absent k j m h.0)

  pub insert-IsKeyed : (k : String) (e : V) (m : Map V) → IsKeyed m → IsKeyed (insert k e m)
  unfolding insert
  insert-IsKeyed k e m h = (lookup-delete_self k m, delete-IsKeyed k m h)

  pub delete_absent : (k : String) (m : Map V) → lookup k m ≡ none → delete k m ≡ m
  unfolding delete lookup
  delete_absent k [] h = refl
  delete_absent k ((j, e) ∷ m) h = ground (arith, delete_absent k m)

  -- Deleting an entry takes its value out of the sum, and no other.
  pub total-delete :
      (k : String) (e : V) (w : V → ℕ) (m : Map V)
      → IsKeyed m
      → lookup k m ≡ some e
      → total w (delete k m) + w e ≡ total w m
  unfolding delete lookup
  total-delete k e w [] h found = ground arith
  total-delete k e w ((j, d) ∷ m) h found = elim (Bool-cases (j == k)) [
    | inl here ↦ ground (arith, delete_absent k m, eq_iff j k)
    | inr later ↦ ground (arith, total-delete k e w m h.1)
  ]

  pub length-delete :
      (k : String) (e : V) (m : Map V)
      → IsKeyed m
      → lookup k m ≡ some e
      → length (delete k m) + 1 ≡ length m
  unfolding delete lookup
  length-delete k e [] h found = ground arith
  length-delete k e ((j, d) ∷ m) h found = elim (Bool-cases (j == k)) [
    | inl here ↦ ground (arith, delete_absent k m, eq_iff j k)
    | inr later ↦ ground (arith, length-delete k e m h.1)
  ]

-- A loop over a map that deletes the entries to take, and lists a number of each.
module _ {ℓ} {V : Type ℓ} (number : V → ℕ) (is_taken : V → Bool) where
  unfoldable pub take_where : Map V → List ℕ → Map V × List ℕ
  take_where [] taken = ([], taken)
  take_where ((k, e) ∷ m) taken =
      let (kept, taken') = take_where m (if is_taken e then number e ∷ taken else taken) in
      (if is_taken e then kept else (k, e) ∷ kept, taken')

  pub take_where-count :
      (c : ℕ) (m : Map V) (taken : List ℕ)
      → total (λ (e : V). one_if (number e == c)) (take_where m taken).0
          + count c (take_where m taken).1
        ≡ total (λ (e : V). one_if (number e == c)) m + count c taken
  unfolding take_where
  take_where-count c [] taken = refl
  take_where-count c ((k, e) ∷ m) taken =
      ground (arith, take_where-count c m (if is_taken e then number e ∷ taken else taken))

  pub take_where-absent :
      (j : String) (m : Map V) (taken : List ℕ)
      → lookup j m ≡ none
      → lookup j (take_where m taken).0 ≡ none
  unfolding take_where lookup
  take_where-absent j [] taken h = h
  take_where-absent j ((k, e) ∷ m) taken h =
      ground (arith, take_where-absent j m (if is_taken e then number e ∷ taken else taken))

  pub take_where-IsKeyed : (m : Map V) (taken : List ℕ) → IsKeyed m → IsKeyed (take_where m taken).0
  unfolding take_where
  take_where-IsKeyed [] taken h = tt
  take_where-IsKeyed ((k, e) ∷ m) taken h =
      let taken' = if is_taken e then number e ∷ taken else taken in
      ground (arith, take_where-IsKeyed m taken' h.1, take_where-absent k m taken' h.0)

  pub length-take_where : (m : Map V) (taken : List ℕ) → length (take_where m taken).0 ≤ length m
  unfolding take_where
  length-take_where [] taken = omega arith
  length-take_where ((k, e) ∷ m) taken =
      ground (arith, length-take_where m (if is_taken e then number e ∷ taken else taken))

  -- What holds of all entries holds of those that stay.
  pub take_where-All {κ} :
      (P : String × V → Type κ) (m : Map V) (taken : List ℕ)
      → All P m
      → All P (take_where m taken).0
  unfolding take_where
  take_where-All P [] taken h = tt
  take_where-All P ((k, e) ∷ m) taken h = elim (Bool-cases (is_taken e)) [
    | inl yes_taken ↦ rw (yes_taken, take_where) (take_where-All P m (number e ∷ taken) h.1)
    | inr not_taken ↦ rw (not_taken, take_where) (h.0, take_where-All P m taken h.1)
  ]

module _ {ℓ κ} {V : Type ℓ} (P : String × V → Type κ) where
  pub delete-All : (k : String) (m : Map V) → All P m → All P (delete k m)
  unfolding delete
  delete-All k [] h = tt
  delete-All k ((j, e) ∷ m) h = elim (Bool-cases (j == k)) [
    | inl same ↦ rw (same, delete) (delete-All k m h.1)
    | inr other ↦ rw (other, delete) (h.0, delete-All k m h.1)
  ]

  pub lookup-All : (k : String) (e : V) (m : Map V) → All P m → lookup k m ≡ some e → P (k, e)
  unfolding lookup
  lookup-All k e [] h found = cc
  lookup-All k e ((j, d) ∷ m) h found = elim (Bool-cases (j == k)) [
    | inl same ↦
        let entry : ◌≡◌ {A = String × V} (j, d) (k, e) = ground (arith, eq_iff j k) in
        subst P entry h.0
    | inr other ↦ lookup-All k e m h.1 (ground arith)
  ]
