-- ===== src/Signing/Verifier.antt =====
-- pkg/signing/verify.go: `Verifier.Verify` and `verifyPayloadMatchesMessage`.
use forager.Prelude.{
  ℕ, Bool, true, false, String, Option, none, some, [], ◌∷◌, ◌==◌, string_eq, if◌then◌else◌, Map,
  lookup, Result, ok, err, ◌>>=◌, ◌>>◌,
}
use forager.Signing.Window.{is_outside_window}
use forager.Signing.Nonces.{Readings, check_and_record_nonce}

pub record SignatureEnvelope : Type 0 where
  pub signed_payload : String
  pub signature : String
  pub signed_at : String
  pub nonce : String
  pub key_id : String

-- The packages that the verifier calls: encoding/json, encoding/base64, time and crypto/ed25519.
-- A message, a payload and a raw JSON value are texts; `none` is a decoding error.
pub record Codecs : Type 0 where
  pub unmarshal_envelope : String → Option SignatureEnvelope
  pub unmarshal_fields : String → Option (Map String)
  -- `json.Unmarshal` into `any`, then `json.Marshal`
  pub canonical_json : String → Option String
  pub parse_rfc3339 : String → Option ℕ
  pub decode_base64 : String → Option String
  -- public key, message, signature
  pub ed25519_verify : String → String → String → Bool

pub record Verifier : Type 0 where
  pub public_key : String
  pub enabled : Bool
  pub seen_nonces : Map ℕ

pub data Refusal : Type 0 where
  cannot_parse missing_signature missing_signed_payload missing_signed_at missing_nonce : Refusal
  bad_signed_at outside_window bad_encoding bad_signature replayed : Refusal
  payload_not_json message_not_json : Refusal
  field_not_found bad_payload_field bad_message_field field_differs : String → Refusal

-- An error when the value is missing.
abbrev pub or_refuse : {A : Type 0} → Refusal → Option A → Result Refusal A
or_refuse e none = err e
or_refuse e (some a) = ok a

abbrev pub refuse_if : Bool → Refusal → Result Refusal (Unit {0})
refuse_if true e = err e
refuse_if false e = ok tt

module _ (lib : Codecs) where
  -- The body of the loop over the signed fields.
  unfoldable pub match_field : Map String → String → String → Result Refusal (Unit {0})
  match_field msg_fields key payload_val = do
    msg_val ← or_refuse (field_not_found key) (lookup key msg_fields)
    payload_canonical ← or_refuse (bad_payload_field key) (lib.canonical_json payload_val)
    msg_canonical ← or_refuse (bad_message_field key) (lib.canonical_json msg_val)
    if payload_canonical == msg_canonical then ok tt else err (field_differs key)

  unfoldable pub match_fields : Map String → Map String → Result Refusal (Unit {0})
  match_fields msg_fields [] = ok tt
  match_fields msg_fields ((key, val) ∷ rest) =
      match_field msg_fields key val >> match_fields msg_fields rest

  unfoldable pub verify_payload_matches_message : String → String → Result Refusal (Unit {0})
  verify_payload_matches_message signed_payload msg = do
    payload_fields ← or_refuse payload_not_json (lib.unmarshal_fields signed_payload)
    msg_fields ← or_refuse message_not_json (lib.unmarshal_fields msg)
    match_fields msg_fields payload_fields

  -- The checks on the fields of the envelope, in the order of the source.
  unfoldable pub authenticate : ℕ → String → String → SignatureEnvelope → Result Refusal (Unit {0})
  authenticate now public_key msg env = do
    refuse_if (env.signature == "") missing_signature
    refuse_if (env.signed_payload == "") missing_signed_payload
    refuse_if (env.signed_at == "") missing_signed_at
    refuse_if (env.nonce == "") missing_nonce
    signed_at ← or_refuse bad_signed_at (lib.parse_rfc3339 env.signed_at)
    refuse_if (is_outside_window now signed_at) outside_window
    sig ← or_refuse bad_encoding (lib.decode_base64 env.signature)
    if lib.ed25519_verify public_key env.signed_payload sig then ok tt else err bad_signature
    verify_payload_matches_message env.signed_payload msg

  -- The nonce is recorded only when every other check has passed.
  unfoldable pub admit :
      Readings → Verifier → String → Result Refusal (Unit {0}) → Verifier × Option Refusal
  admit r v nonce (err e) = (v, some e)
  admit r v nonce (ok _) =
      let (seen', dup) = check_and_record_nonce r nonce v.seen_nonces in
      (record v { seen_nonces = seen' }, if dup then some replayed else none)

  unfoldable pub verify_envelope :
      Readings → Verifier → String → Option SignatureEnvelope → Verifier × Option Refusal
  verify_envelope r v msg none = (v, some cannot_parse)
  verify_envelope r v msg (some env) =
      admit r v env.nonce (authenticate r.checked v.public_key msg env)

  -- The result is `none` where Go returns a nil error.
  unfoldable pub verify : Readings → Verifier → String → Verifier × Option Refusal
  unfolding verify_envelope admit
  verify r v msg =
      if v.enabled then verify_envelope r v msg (lib.unmarshal_envelope msg) else (v, none)
