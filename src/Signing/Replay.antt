-- ===== src/Signing/Replay.antt =====
-- Replays of a message that the verifier let through, over any interleaving of later calls.
use forager.Prelude.{
  ℕ, ◌+◌, ◌≤◌, ◌<◌, ◌≡◌, ◌≢◌, ◌⊎◌, inl, inr, ◌∙◌, refl, Bool, true, false, String, Option, none,
  some, List, [], ◌∷◌, arith, Result, ok, err, if◌then◌else◌, string_eq,
}
use forager.Prelude.Int.{half}
use forager.Signing.Window.{max_timestamp_skew, is_outside_window, window_near}
use forager.Signing.Nonces.{
  Readings, check_and_record_nonce, Recalls, record-Recalls, later-Recalls, recalled_refused,
  Recalls-later,
}
use forager.Signing.Verifier.{
  Codecs, SignatureEnvelope, Verifier, Refusal, authenticate, admit, verify_envelope, verify,
}

-- One call of `Verify`.
abbrev pub Call : Type 0
Call = Readings × String

-- Calls in the order in which they hold the nonce lock. Their window checks may have been made
-- earlier, in any order.
abbrev pub IsTimeline : ℕ → List Call → Type 0
IsTimeline now [] = Unit
IsTimeline now ((r, msg) ∷ calls) =
    (now ≤ r.recorded) × (r.recorded ≤ r.cut) × IsTimeline r.cut calls

-- The last reading of the clock in a timeline.
abbrev pub last_cut : ℕ → List Call → ℕ
last_cut now [] = now
last_cut now ((r, msg) ∷ calls) = last_cut r.cut calls

module _ (lib : Codecs) where
  unfoldable pub run : Verifier → List Call → Verifier
  run v [] = v
  run v ((r, msg) ∷ calls) = run (verify lib r v msg).0 calls

  authenticate_window :
      (now : ℕ) (key msg : String) (env : SignatureEnvelope) (signed_at : ℕ)
      → authenticate lib now key msg env ≡ ok tt
      → lib.parse_rfc3339 env.signed_at ≡ some signed_at
      → is_outside_window now signed_at ≡ false
  unfolding authenticate
  authenticate_window now key msg env signed_at h e = ground arith

  enabled-verify :
      (r : Readings) (v : Verifier) (msg : String) → (verify lib r v msg).0.enabled ≡ v.enabled
  unfolding verify
  enabled-verify r v msg = ground arith

  -- Either the nonces are as they were, or one was recorded.
  admit-cases :
      (r : Readings) (v : Verifier) (nonce : String) (a : Result Refusal (Unit {0}))
      → ((admit lib r v nonce a).0.seen_nonces ≡ v.seen_nonces)
        ⊎ ((admit lib r v nonce a).0.seen_nonces ≡ (check_and_record_nonce r nonce v.seen_nonces).0)
  unfolding admit
  admit-cases r v nonce (ok _) = inr refl
  admit-cases r v nonce (err e) = inl refl

  envelope-Recalls :
      (r : Readings) (v : Verifier) (msg nonce : String) (since : ℕ)
      (env : Option SignatureEnvelope)
      → since ≤ r.recorded
      → r.recorded ≤ r.cut
      → Recalls nonce since r.recorded v.seen_nonces
      → Recalls nonce since r.cut (verify_envelope lib r v msg env).0.seen_nonces
  unfolding verify_envelope
  envelope-Recalls r v msg nonce since none a b h =
      Recalls-later nonce since r.recorded r.cut v.seen_nonces b h
  envelope-Recalls r v msg nonce since (some env) a b h =
      elim (admit-cases r v env.nonce (authenticate lib r.checked v.public_key msg env)) [
        | inl same ↦ rw same (Recalls-later nonce since r.recorded r.cut v.seen_nonces b h)
        | inr added ↦ rw added (later-Recalls r nonce env.nonce since v.seen_nonces a b h)
      ]

  enabled_if-Recalls :
      (b : Bool) (r : Readings) (v : Verifier) (msg nonce : String) (since : ℕ)
      → since ≤ r.recorded
      → r.recorded ≤ r.cut
      → Recalls nonce since r.recorded v.seen_nonces
      → Recalls nonce since r.cut
          (if b
            then verify_envelope lib r v msg (lib.unmarshal_envelope msg)
            else (v, none)).0.seen_nonces
  enabled_if-Recalls true r v msg nonce since a b h =
      envelope-Recalls r v msg nonce since (lib.unmarshal_envelope msg) a b h
  enabled_if-Recalls false r v msg nonce since a b h =
      Recalls-later nonce since r.recorded r.cut v.seen_nonces b h

  verify-Recalls :
      (r : Readings) (v : Verifier) (msg nonce : String) (since : ℕ)
      → since ≤ r.recorded
      → r.recorded ≤ r.cut
      → Recalls nonce since r.recorded v.seen_nonces
      → Recalls nonce since r.cut (verify lib r v msg).0.seen_nonces
  unfolding verify
  verify-Recalls r v msg = enabled_if-Recalls v.enabled r v msg

  run-Recalls :
      (calls : List Call) (v : Verifier) (nonce : String) (since now : ℕ)
      → since ≤ now
      → IsTimeline now calls
      → Recalls nonce since now v.seen_nonces
      → Recalls nonce since (last_cut now calls) (run v calls).seen_nonces
  unfolding run
  run-Recalls [] v nonce since now le tl h = h
  run-Recalls ((r, msg) ∷ calls) v nonce since now le tl h =
      run-Recalls calls (verify lib r v msg).0 nonce since r.cut (omega arith) tl.2 (
        verify-Recalls r v msg nonce since (omega arith) tl.1
          (Recalls-later nonce since now r.recorded v.seen_nonces tl.0 h))

  enabled-run : (calls : List Call) (v : Verifier) → (run v calls).enabled ≡ v.enabled
  unfolding run
  enabled-run [] v = refl
  enabled-run ((r, msg) ∷ calls) v =
      enabled-run calls (verify lib r v msg).0 ∙ enabled-verify r v msg

  -- What an accepted call went through.
  pub verify-eq-none :
      (r : Readings) (v : Verifier) (msg : String) (env : SignatureEnvelope)
      → v.enabled ≡ true
      → lib.unmarshal_envelope msg ≡ some env
      → (verify lib r v msg).1 ≡ none
      → (authenticate lib r.checked v.public_key msg env ≡ ok tt)
        × ((check_and_record_nonce r env.nonce v.seen_nonces).1 ≡ false)
        × ((verify lib r v msg).0.seen_nonces
            ≡ (check_and_record_nonce r env.nonce v.seen_nonces).0)
  unfolding verify
  verify-eq-none r v msg env on e h = ground arith

  stamp_near :
      (now : ℕ) (key msg : String) (env : SignatureEnvelope) (signed_at : ℕ)
      → authenticate lib now key msg env ≡ ok tt
      → lib.parse_rfc3339 env.signed_at ≡ some signed_at
      → signed_at < now + half
      → (now ≤ signed_at + max_timestamp_skew) × (signed_at ≤ now + max_timestamp_skew)
  stamp_near now key msg env signed_at h e lt =
      window_near now signed_at lt (authenticate_window now key msg env signed_at h e)

  -- An enabled verifier that let one message through refuses, after any later calls, every message
  -- with the same nonce and the same `signed_at`. The later calls hold the nonce lock in the order
  -- listed, and the last message is checked after they released it. The stamp is less than 2^63
  -- nanoseconds ahead of the clock at both checks.
  pub no_replay :
      (v : Verifier) (r : Readings) (msg : String) (env : SignatureEnvelope) (calls : List Call)
      (r' : Readings) (msg' : String) (env' : SignatureEnvelope) (signed_at : ℕ)
      → v.enabled ≡ true
      → lib.unmarshal_envelope msg ≡ some env
      → lib.unmarshal_envelope msg' ≡ some env'
      → env'.nonce ≡ env.nonce
      → env'.signed_at ≡ env.signed_at
      → lib.parse_rfc3339 env.signed_at ≡ some signed_at
      → r.checked ≤ r.recorded
      → r.recorded ≤ r.cut
      → IsTimeline r.cut calls
      → last_cut r.cut calls ≤ r'.checked
      → signed_at < r.checked + half
      → signed_at < r'.checked + half
      → (verify lib r v msg).1 ≡ none
      → (verify lib r' (run (verify lib r v msg).0 calls) msg').1 ≢ none
  no_replay v r msg env calls r' msg' env' signed_at on e e' same_nonce same_stamp p o₁ o₂ tl after
        lt lt' accepted again =
      let first = verify-eq-none r v msg env on e accepted in
      let v' = run (verify lib r v msg).0 calls in
      let on' = enabled-run calls (verify lib r v msg).0 ∙ enabled-verify r v msg ∙ on in
      let second = verify-eq-none r' v' msg' env' on' e' again in
      let near = stamp_near r.checked v.public_key msg env signed_at first.0 p lt in
      let near' =
        stamp_near r'.checked v'.public_key msg' env' signed_at second.0 (rw same_stamp p) lt' in
      let recalled : Recalls env.nonce r.recorded r.cut (verify lib r v msg).0.seen_nonces =
        rw first.2 (record-Recalls r env.nonce v.seen_nonces first.1) in
      let recalled' =
        run-Recalls calls (verify lib r v msg).0 env.nonce r.recorded r.cut o₂ tl recalled in
      let seen =
        recalled_refused r' env.nonce r.recorded (last_cut r.cut calls) v'.seen_nonces recalled'
          (omega arith) in
      cc (seen, second.1, same_nonce)
