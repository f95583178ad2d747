-- ===== src/Signing/Nonces.antt =====
-- pkg/signing/verify.go: `checkAndRecordNonce`, the map of nonces and its eviction.
use text.Mathlib.TextPositions.{eq_refl}
use forager.Prelude.{
  Option-cases, Bool-cases, ℕ, ◌+◌, ◌*◌, ◌%◌, ◌≤◌, ◌<◌, ◌≡◌, ◌⊎◌, inl, inr, Bool, true, false, ◌&&◌,
  String, none, some, [], ◌∷◌, arith, eq_iff, ltb, ◌==◌, nat_eq, string_eq, if◌then◌else◌, length,
  Map, lookup, insert, lookup-insert,
}
use forager.Signing.Window.{max_timestamp_skew}

abbrev pub max_nonces : ℕ
max_nonces = 10_000

-- Three readings of the clock in one call of `Verify`: at the window, at the record, at the cutoff.
pub record Readings : Type 0 where
  pub checked : ℕ
  pub recorded : ℕ
  pub cut : ℕ

pub record Ordered (r : Readings) : Type 0 where
  pub first : r.checked ≤ r.recorded
  pub second : r.recorded ≤ r.cut

-- The loop that deletes what was recorded before `now - 2 * maxTimestampSkew`.
pub evict : ℕ → Map ℕ → Map ℕ
evict now [] = []
evict now ((n, t) ∷ m) =
    let rest = evict now m in if ltb (t + max_timestamp_skew * 2) now then rest else (n, t) ∷ rest

-- True when the nonce was seen.
unfoldable pub check_and_record_nonce : Readings → String → Map ℕ → Map ℕ × Bool
unfolding evict
check_and_record_nonce r nonce seen = elim (lookup nonce seen) [
  | some _ ↦ (seen, true)
  | none ↦
      let seen' = insert nonce r.recorded seen in
      (
        if ltb max_nonces (length seen') && length seen' % 100 == 0
            then evict r.cut seen'
            else seen',
        false,
      )
]

-- What the map holds of a nonce that was recorded at `since`: an entry no older than that, unless
-- the record is already more than ten minutes before `now`.
abbrev pub Recalls : String → ℕ → ℕ → Map ℕ → Type 0
Recalls nonce since now seen =
    ((t : ℕ) × (lookup nonce seen ≡ some t) × (since ≤ t)) ⊎ (since + max_timestamp_skew * 2 < now)

evict-lookup :
    (nonce : String) (now t : ℕ) (seen : Map ℕ)
    → lookup nonce seen ≡ some t
    → (lookup nonce (evict now seen) ≡ some t) ⊎ (t + max_timestamp_skew * 2 < now)
unfolding evict lookup
evict-lookup nonce now t [] h = cc
evict-lookup nonce now t ((n, u) ∷ m) h = ground (arith, evict-lookup nonce now t m)

evict-Recalls :
    (nonce : String) (since t now : ℕ) (seen : Map ℕ)
    → lookup nonce seen ≡ some t
    → since ≤ t
    → Recalls nonce since now (evict now seen)
evict-Recalls nonce since t now seen h le = elim (evict-lookup nonce now t seen h) [
  | inl kept ↦ inl (t, kept, le)
  | inr old ↦ inr (omega arith)
]

evict_if_Recalls :
    (b : Bool) (nonce : String) (since t now : ℕ) (seen : Map ℕ)
    → lookup nonce seen ≡ some t
    → since ≤ t
    → Recalls nonce since now (if b then evict now seen else seen)
evict_if_Recalls true nonce since t now seen h le = evict-Recalls nonce since t now seen h le
evict_if_Recalls false nonce since t now seen h le = inl (t, h, le)

-- A nonce that was let through is recalled from its record on.
pub record-Recalls :
    (r : Readings) (nonce : String) (seen : Map ℕ)
    → (check_and_record_nonce r nonce seen).1 ≡ false
    → Recalls nonce r.recorded r.cut (check_and_record_nonce r nonce seen).0
unfolding check_and_record_nonce
record-Recalls r nonce seen h = elim (Option-cases (lookup nonce seen)) [
  | inl fresh ↦
      rw (fresh, check_and_record_nonce)
        (evict_if_Recalls _ nonce r.recorded r.recorded r.cut (insert nonce r.recorded seen)
          (simp (lookup-insert, eq_refl)) (omega arith))
  | inr (t, old) ↦ absurd (ground arith)
]

-- A later call, for any nonce, keeps what is recalled.
pub later-Recalls :
    (r : Readings) (nonce other : String) (since : ℕ) (seen : Map ℕ)
    → since ≤ r.recorded
    → r.recorded ≤ r.cut
    → Recalls nonce since r.recorded seen
    → Recalls nonce since r.cut (check_and_record_nonce r other seen).0
unfolding check_and_record_nonce
later-Recalls r nonce other since seen le ord (inr old) = inr (omega arith)
later-Recalls r nonce other since seen le ord (inl (t, h, lt)) =
    elim (Option-cases (lookup other seen)) [
      | inr (u, dup) ↦ rw (dup, check_and_record_nonce) (inl (t, h, lt))
      | inl fresh ↦
          rw (fresh, check_and_record_nonce)
            (elim (Bool-cases (other == nonce)) [
              | inl same ↦ absurd (ground (arith, eq_iff other nonce))
              | inr differ ↦
                  evict_if_Recalls _ nonce since t r.cut (insert other r.recorded seen)
                    (simp (lookup-insert, differ) h) lt
            ])
    ]

-- A nonce that is recalled, and not yet ten minutes old, is refused.
pub recalled_refused :
    (r : Readings) (nonce : String) (since now : ℕ) (seen : Map ℕ)
    → Recalls nonce since now seen
    → now ≤ since + max_timestamp_skew * 2
    → (check_and_record_nonce r nonce seen).1 ≡ true
unfolding check_and_record_nonce
recalled_refused r nonce since now seen (inl (t, h, le)) young = rw (h, check_and_record_nonce)
recalled_refused r nonce since now seen (inr old) young = absurd (omega arith)

pub Recalls-later :
    (nonce : String) (since now later : ℕ) (seen : Map ℕ)
    → now ≤ later
    → Recalls nonce since now seen
    → Recalls nonce since later seen
Recalls-later nonce since now later seen le (inl old) = inl old
Recalls-later nonce since now later seen le (inr old) = inr (omega arith)

pub unseen_admitted :
    (r : Readings) (nonce : String) (seen : Map ℕ)
    → lookup nonce seen ≡ none
    → (check_and_record_nonce r nonce seen).1 ≡ false
unfolding check_and_record_nonce
unseen_admitted r nonce seen h = rw (h, check_and_record_nonce)

pub admitted_unseen :
    (r : Readings) (nonce : String) (seen : Map ℕ)
    → (check_and_record_nonce r nonce seen).1 ≡ false
    → lookup nonce seen ≡ none
unfolding check_and_record_nonce
admitted_unseen r nonce seen h = ground arith
