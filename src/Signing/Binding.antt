-- ===== src/Signing/Binding.antt =====
-- What an accepted signature binds, and what it leaves open.
use forager.Prelude.{
  ◌↔◌, ◌⊎◌, inl, inr, Bool-cases, Option-cases, ℕ, ◌≡◌, ◌≢◌, refl, true, false, String, none, some,
  [], ◌∷◌, arith, eq_iff, All, Map, lookup, ok, bind-eq-ok, string_eq,
}
use forager.Signing.Window.{is_outside_window, IsNear, is_outside_window-eq-false_iff}
use forager.Signing.Nonces.{Readings, unseen_admitted, admitted_unseen}
use forager.Signing.Verifier.{
  Codecs, SignatureEnvelope, Verifier, or_refuse, match_field, match_fields,
  verify_payload_matches_message, authenticate, verify,
}
use forager.Signing.Replay.{verify-eq-none}

module _ (lib : Codecs) where
  -- A signed field stands in the message with the same canonical JSON.
  abbrev pub Agrees : Map String → String × String → Type 0
  Agrees msg_fields (key, val) =
      (msg_val : String) × (canonical : String) × (lookup key msg_fields ≡ some msg_val)
      × (lib.canonical_json val ≡ some canonical)
      × (lib.canonical_json msg_val ≡ some canonical)

  match_field-Agrees :
      (msg_fields : Map String) (key val : String)
      → match_field lib msg_fields key val ≡ ok tt
      → Agrees msg_fields (key, val)
  unfolding match_field
  match_field-Agrees msg_fields key val h =
      let (w, e, h₁) = bind-eq-ok (or_refuse _ (lookup key msg_fields)) _ h in
      let (c, e', h₂) = bind-eq-ok (or_refuse _ (lib.canonical_json val)) _ h₁ in
      let (d, e'', h₃) = bind-eq-ok (or_refuse _ (lib.canonical_json w)) _ h₂ in
      (w, c, ground arith, ground arith, ground (arith, eq_iff c d))

  match_fields-Agrees :
      (msg_fields payload : Map String)
      → match_fields lib msg_fields payload ≡ ok tt
      → All (Agrees msg_fields) payload
  unfolding match_fields
  match_fields-Agrees msg_fields [] h = tt
  match_fields-Agrees msg_fields ((key, val) ∷ rest) h =
      let (_, first, later) = bind-eq-ok (match_field lib msg_fields key val) _ h in
      (match_field-Agrees msg_fields key val first, match_fields-Agrees msg_fields rest later)

  Agrees-match_field :
      (msg_fields : Map String) (key val : String)
      → Agrees msg_fields (key, val)
      → match_field lib msg_fields key val ≡ ok tt
  unfolding match_field
  Agrees-match_field msg_fields key val (w, c, e, p, q) = ground (arith, eq_iff c c)

  Agrees-match_fields :
      (msg_fields payload : Map String)
      → All (Agrees msg_fields) payload
      → match_fields lib msg_fields payload ≡ ok tt
  unfolding match_fields
  Agrees-match_fields msg_fields [] h = refl
  Agrees-match_fields msg_fields ((key, val) ∷ rest) h =
      rw (Agrees-match_field msg_fields key val h.0) (Agrees-match_fields msg_fields rest h.1)

  -- Every check of the verifier, stated of the decoded parts of a message.
  pub record IsAuthentic (r : Readings) (v : Verifier) (msg : String) (env : SignatureEnvelope)
      : Type 0 where
    pub signed_at : ℕ
    pub sig : String
    pub payload_fields : Map String
    pub msg_fields : Map String
    pub has_signature : env.signature ≢ ""
    pub has_payload : env.signed_payload ≢ ""
    pub has_stamp : env.signed_at ≢ ""
    pub has_nonce : env.nonce ≢ ""
    pub stamp : lib.parse_rfc3339 env.signed_at ≡ some signed_at
    pub in_window : IsNear r.checked signed_at
    pub decoded : lib.decode_base64 env.signature ≡ some sig
    pub signed : lib.ed25519_verify v.public_key env.signed_payload sig ≡ true
    pub payload_json : lib.unmarshal_fields env.signed_payload ≡ some payload_fields
    pub msg_json : lib.unmarshal_fields msg ≡ some msg_fields
    pub agrees : All (Agrees msg_fields) payload_fields
    pub unseen : lookup env.nonce v.seen_nonces ≡ none

  module _ (now : ℕ) (key msg : String) (env : SignatureEnvelope) where
    non_empty :
        authenticate lib now key msg env ≡ ok tt
        → (env.signature ≢ "") × (env.signed_payload ≢ "") × (env.signed_at ≢ "") × (env.nonce ≢ "")
    unfolding authenticate
    non_empty h = ground (
      arith,
      eq_iff env.signature "",
      eq_iff env.signed_payload "",
      eq_iff env.signed_at "",
      eq_iff env.nonce "",
    )

    stamp_of :
        authenticate lib now key msg env ≡ ok tt
        → (t : ℕ) × (lib.parse_rfc3339 env.signed_at ≡ some t) × (is_outside_window now t ≡ false)
    unfolding authenticate
    stamp_of h = ground arith

    signature_of :
        authenticate lib now key msg env ≡ ok tt
        → (sig : String) × (lib.decode_base64 env.signature ≡ some sig)
          × (lib.ed25519_verify key env.signed_payload sig ≡ true)
    unfolding authenticate
    signature_of h = ground arith

    fields_of :
        authenticate lib now key msg env ≡ ok tt
        → (p : Map String) × (f : Map String) × (lib.unmarshal_fields env.signed_payload ≡ some p)
          × (lib.unmarshal_fields msg ≡ some f)
          × (match_fields lib f p ≡ ok tt)
    unfolding authenticate verify_payload_matches_message
    fields_of h = ground arith

  module _ (r : Readings) (v : Verifier) (msg : String) (env : SignatureEnvelope) where
    pub verify_sound :
        v.enabled ≡ true
        → lib.unmarshal_envelope msg ≡ some env
        → (verify lib r v msg).1 ≡ none
        → IsAuthentic r v msg env
    verify_sound on e h =
        let (a, fresh, _) = verify-eq-none lib r v msg env on e h in
        let (s₁, s₂, s₃, s₄) = non_empty r.checked v.public_key msg env a in
        let (t, st, near) = stamp_of r.checked v.public_key msg env a in
        let (sig, dec, good) = signature_of r.checked v.public_key msg env a in
        let (p, f, pj, mj, m) = fields_of r.checked v.public_key msg env a in
        record {
          signed_at = t;
          sig = sig;
          payload_fields = p;
          msg_fields = f;
          has_signature = s₁;
          has_payload = s₂;
          has_stamp = s₃;
          has_nonce = s₄;
          stamp = st;
          in_window = (is_outside_window-eq-false_iff r.checked t).0 near;
          decoded = dec;
          signed = good;
          payload_json = pj;
          msg_json = mj;
          agrees = match_fields-Agrees f p m;
          unseen = admitted_unseen r env.nonce v.seen_nonces fresh;
        }

    pub verify_complete :
        v.enabled ≡ true
        → lib.unmarshal_envelope msg ≡ some env
        → IsAuthentic r v msg env
        → (verify lib r v msg).1 ≡ none
    unfolding verify authenticate verify_payload_matches_message
    verify_complete on e a = ground (
      arith,
      unseen_admitted r env.nonce v.seen_nonces a.unseen,
      (is_outside_window-eq-false_iff r.checked a.signed_at).1 a.in_window,
      Agrees-match_fields a.msg_fields a.payload_fields a.agrees,
      eq_iff env.signature "",
      eq_iff env.signed_payload "",
      eq_iff env.signed_at "",
      eq_iff env.nonce "",
    )

  unparsed_refused :
      (r : Readings) (v : Verifier) (msg : String)
      → v.enabled ≡ true
      → lib.unmarshal_envelope msg ≡ none
      → (verify lib r v msg).1 ≢ none
  unfolding verify
  unparsed_refused r v msg on e h = ground arith

  disabled_accepts :
      (r : Readings) (v : Verifier) (msg : String)
      → v.enabled ≡ false
      → (verify lib r v msg).1 ≡ none
  unfolding verify
  disabled_accepts r v msg off = ground arith

  -- A message with an envelope that passes every check.
  abbrev pub IsAuthenticMessage : Readings → Verifier → String → Type 0
  IsAuthenticMessage r v msg =
      (env : SignatureEnvelope) × (lib.unmarshal_envelope msg ≡ some env) × IsAuthentic r v msg env

  pub verify-IsAuthenticMessage :
      (r : Readings) (v : Verifier) (msg : String)
      → v.enabled ≡ true
      → (verify lib r v msg).1 ≡ none
      → IsAuthenticMessage r v msg
  verify-IsAuthenticMessage r v msg on h = elim (Option-cases (lib.unmarshal_envelope msg)) [
    | inl unparsed ↦ absurd (unparsed_refused r v msg on unparsed h)
    | inr (env, e) ↦ (env, e, verify_sound r v msg env on e h)
  ]

  -- Verify gives no error exactly when the verifier is not enabled, or when the message has a
  -- signature envelope that decodes and every check of `IsAuthentic` holds: the envelope's four
  -- texts are there, the stamp is at most five minutes from the clock or 2^63 nanoseconds or more
  -- ahead of it, the signature is one of the signed payload under the configured key, every signed
  -- field stands in the message with the same canonical JSON, and the nonce has not been seen.
  pub verify-eq-none_iff :
      (r : Readings) (v : Verifier) (msg : String)
      → ((verify lib r v msg).1 ≡ none)
        ↔ ((v.enabled ≡ false) ⊎ ((v.enabled ≡ true) × IsAuthenticMessage r v msg))
  verify-eq-none_iff r v msg = (
    λ h. elim (Bool-cases v.enabled) [
      | inl on ↦ inr (on, verify-IsAuthenticMessage r v msg on h)
      | inr off ↦ inl off
    ],
    λ k. elim k [
      | inl off ↦ disabled_accepts r v msg off
      | inr (on, (env, e, a)) ↦ verify_complete r v msg env on e a
    ],
  )
