-- ===== src/Errors/Bounds.antt =====
-- pkg/proxy/errors.go: the text that `RedactError` reports is short and cut between runes.
use forager.Prelude.{
  ℕ, zero, suc, ◌+◌, ◌≤◌, ◌<◌, ◌≡◌, ◌⊎◌, inl, inr, refl, true, false, [], ◌∷◌, ◌++◌, arith,
  Bool-cases, ltb, ltb→lt, not_ltb→le, length, length-append,
}
use forager.Prelude.Bytes.{Bytes, codes, join, fields}
use forager.Errors.{
  Regexps, max_reported_error_len, starts_at, rune_boundary, take, bound_length, redact_error,
  apply_redactions, redactions,
}

length-take : (n : ℕ) (s : Bytes) → length (take n s) ≤ n
length-take zero s = omega arith
length-take (suc n) [] = omega arith
length-take (suc n) (c ∷ s) = omega (arith, length-take n s)

rune_boundary-le : (msg : Bytes) (n : ℕ) → rune_boundary msg n ≤ n
unfolding rune_boundary
rune_boundary-le msg zero = omega arith
rune_boundary-le msg (suc n) = ground (arith, rune_boundary-le msg n)

rune_boundary-starts :
    (msg : Bytes) (n : ℕ) → (rune_boundary msg n ≡ 0) ⊎ (starts_at msg (rune_boundary msg n) ≡ true)
unfolding rune_boundary
rune_boundary-starts msg zero = inl refl
rune_boundary-starts msg (suc n) = elim (Bool-cases (starts_at msg (suc n))) [
  | inl here ↦ inr (rw here here)
  | inr later ↦ rw later (rune_boundary-starts msg n)
]

rune_boundary-last :
    (msg : Bytes) (n k : ℕ) → rune_boundary msg n < k → k ≤ n → starts_at msg k ≡ false
unfolding rune_boundary
rune_boundary-last msg zero k lt le = absurd (omega arith)
rune_boundary-last msg (suc n) k lt le = elim (Bool-cases (starts_at msg (suc n))) [
  | inl here ↦ absurd (ground arith)
  | inr later ↦ ground (arith, rune_boundary-last msg n k)
]

-- The cut of a text that is too long.
pub record IsCut (msg cut : Bytes) : Type 0 where
  pub at : ℕ
  pub within : at ≤ max_reported_error_len
  pub cut_is : cut ≡ take at msg ++ (0xE2 ∷ 0x80 ∷ 0xA6 ∷ [])
  pub between : (at ≡ 0) ⊎ (starts_at msg at ≡ true)
  pub longest : (k : ℕ) → at < k → k ≤ max_reported_error_len → starts_at msg k ≡ false

-- A text of at most 512 bytes is reported as it is. A longer one is cut before the last byte, up to
-- position 512, that starts a rune (or is cut whole, where none does), and an ellipsis follows.
bound_length_lem :
    (msg : Bytes)
    → (length msg ≤ max_reported_error_len → bound_length msg ≡ msg)
      × (max_reported_error_len < length msg → IsCut msg (bound_length msg))
unfolding bound_length
bound_length_lem msg = (
  λ le. ground arith,
  λ lt. record {
    at = rune_boundary msg max_reported_error_len;
    within = rune_boundary-le msg max_reported_error_len;
    cut_is = ground arith;
    between = rune_boundary-starts msg max_reported_error_len;
    longest = rune_boundary-last msg max_reported_error_len;
  },
)

length-cut :
    (n : ℕ) (msg tail : Bytes)
    → n ≤ max_reported_error_len
    → length tail ≤ 3
    → length (take n msg ++ tail) ≤ max_reported_error_len + 3
length-cut n msg tail le short = omega (arith, length-append (take n msg) tail, length-take n msg)

length-bound_length : (msg : Bytes) → length (bound_length msg) ≤ max_reported_error_len + 3
length-bound_length msg = elim (Bool-cases (ltb max_reported_error_len (length msg))) [
  | inl long ↦
      rw ((bound_length_lem msg).1 (ltb→lt max_reported_error_len (length msg) long)).cut_is (
        length-cut _ msg _
          ((bound_length_lem msg).1 (ltb→lt max_reported_error_len (length msg) long)).within
          (omega arith))
  | inr short ↦
      rw ((bound_length_lem msg).0 (not_ltb→le max_reported_error_len (length msg) short))
        (omega (arith, not_ltb→le max_reported_error_len (length msg) short))
]

-- Whatever the regular expressions leave, at most 515 bytes are reported.
pub length-redact_error :
    (re : Regexps) (msg : Bytes) → length (redact_error re msg) ≤ max_reported_error_len + 3
unfolding redact_error
length-redact_error re msg =
    length-bound_length
      (join (codes " ") (fields (apply_redactions re redactions (re.to_valid_utf8 msg))))
