-- ===== src/Tests/SigningTests.antt =====
-- pkg/signing: one signed message, its replay, and the same signature under a new nonce.
use forager.Prelude.{
  ℕ, ◌≡◌, ◌≢◌, ◌↔◌, ◌⊎◌, refl, true, false, String, none, some, [], ◌∷◌, arith, eq_iff, ◌==◌,
  string_eq, if◌then◌else◌, Map, lookup, insert,
}
use forager.Signing.Window.{is_outside_window, window_far_future}
use forager.Signing.Nonces.{Readings, check_and_record_nonce}
use forager.Signing.Verifier.{
  Codecs, SignatureEnvelope, Verifier, authenticate, match_field, match_fields, verify,
  verify_payload_matches_message,
}
use forager.Signing.Replay.{run, no_replay}
use forager.Signing.Binding.{IsAuthenticMessage, verify-eq-none_iff}
use forager.Signing.Resealed.{verify_resealed}
use forager.Signing.Signer.{SignerCodecs, action_of}

abbrev envelope : String → String → SignatureEnvelope
envelope stamp nonce = record {
  signed_payload = "payload";
  signature = "signature";
  signed_at = stamp;
  nonce = nonce;
  key_id = "";
}

abbrev fields_of : Map String
fields_of = ("action", "db_query") ∷ ("nonce", "any") ∷ []

abbrev codecs : Codecs
codecs = record {
  unmarshal_envelope =
      λ m. if m == "first" then some (envelope "noon" "n1") else some (envelope "later" "n2");
  unmarshal_fields =
      λ t. if t == "payload" then some (("action", "db_query") ∷ []) else some fields_of;
  canonical_json = λ t. some t;
  parse_rfc3339 = λ t. if t == "noon" then some 1_000_000_000_000 else some 2_000_000_000_000;
  decode_base64 = λ t. some t;
  ed25519_verify = λ k m s. s == "signature";
}

abbrev verifier : Verifier
verifier = record { public_key = "key"; enabled = true; seen_nonces = [] }

abbrev at : ℕ → Readings
at t = record { checked = t; recorded = t; cut = t }

accepts_first : (verify codecs (at 1_000_000_000_000) verifier "first").1 ≡ none
unfolding verify authenticate verify_payload_matches_message match_fields match_field
    is_outside_window check_and_record_nonce lookup insert
accepts_first = refl

no_replay_example :
    (verify codecs
      (at 1_100_000_000_000)
      (run codecs
        (verify codecs (at 1_000_000_000_000) verifier "first").0
        ((at 1_050_000_000_000, "second") ∷ []))
      "first").1
    ≢ none
no_replay_example =
    no_replay codecs verifier (at 1_000_000_000_000) "first" (envelope "noon" "n1")
      ((at 1_050_000_000_000, "second") ∷ []) (at 1_100_000_000_000) "first" (envelope "noon" "n1")
      1_000_000_000_000 refl refl refl refl refl refl (omega arith) (omega arith) (omega arith)
      (omega arith) (omega arith) (omega arith) accepts_first

verify-eq-none_iff_example : ((verify codecs (at 1_000_000_000_000) verifier "first").1 ≡ none) ↔ (
    (verifier.enabled ≡ false)
    ⊎ ((verifier.enabled ≡ true)
        × IsAuthenticMessage codecs (at 1_000_000_000_000) verifier "first"))
verify-eq-none_iff_example = verify-eq-none_iff codecs (at 1_000_000_000_000) verifier "first"

n2_not_empty : ◌≢◌ {A = String} "n2" ""
n2_not_empty = ground (arith, eq_iff "n2" "")

later_not_empty : ◌≢◌ {A = String} "later" ""
later_not_empty = ground (arith, eq_iff "later" "")

verify_resealed_example :
    (verify codecs
      (at 2_000_000_000_000)
      (verify codecs (at 1_000_000_000_000) verifier "first").0
      "second").1
    ≡ none
unfolding verify authenticate verify_payload_matches_message match_fields match_field
    is_outside_window check_and_record_nonce lookup insert
verify_resealed_example =
    verify_resealed codecs (at 1_000_000_000_000) (at 2_000_000_000_000) verifier
      (verify codecs (at 1_000_000_000_000) verifier "first").0 "first" "second"
      (envelope "noon" "n1") (envelope "later" "n2") (("action", "db_query") ∷ []) fields_of
      fields_of 2_000_000_000_000 refl refl accepts_first refl refl refl refl refl refl refl
      n2_not_empty refl later_not_empty refl refl refl (refl, tt)

window_far_future_example : is_outside_window 5 9_223_372_036_854_775_900 ≡ false
window_far_future_example = window_far_future 5 9_223_372_036_854_775_900 (omega arith)

-- A legacy message: everything stands in the body.
abbrev legacy : Map String
legacy = ("body", "legacy body") ∷ []

abbrev signer_codecs : SignerCodecs
signer_codecs = record {
  unmarshal_fields = λ t. some (("action_name", "db_query") ∷ []);
  unmarshal_string = λ t. some t;
  marshal_fields = λ m. "";
  marshal_string = λ t. t;
  encode_base64 = λ t. t;
  ed25519_sign = λ k m. m;
}

legacy_is_query : action_of signer_codecs legacy ≡ "db_query"
unfolding action_of lookup
legacy_is_query = refl
