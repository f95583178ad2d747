-- ===== src/Signing/Resealed.antt =====
-- pkg/signing/verify.go: what the signature leaves open.
use mathlib.Core.Path.{subst₂}
use forager.Prelude.{
  ◌∙◌, ℕ, ◌≡◌, ◌≢◌, true, false, String, none, some, [], ◌∷◌, All, Map, lookup, string_eq,
}
use forager.Signing.Window.{is_outside_window, is_outside_window-eq-false_iff}
use forager.Signing.Nonces.{Readings}
use forager.Signing.Verifier.{Codecs, SignatureEnvelope, Verifier, verify}
use forager.Signing.Binding.{Agrees, verify_sound, verify_complete}

module _ (lib : Codecs) where
  -- Two messages give the signed fields the same values.
  abbrev pub SameSigned : Map String → Map String → Map String → Type 0
  SameSigned f f' [] = Unit
  SameSigned f f' ((key, _) ∷ rest) = (lookup key f' ≡ lookup key f) × SameSigned f f' rest

  SameSigned-Agrees :
      (f f' payload : Map String)
      → SameSigned f f' payload
      → All (Agrees lib f) payload
      → All (Agrees lib f') payload
  SameSigned-Agrees f f' [] s h = tt
  SameSigned-Agrees f f' ((key, val) ∷ rest) (same, s) ((w, c, e, p, q), h) =
      ((w, c, same ∙ e, p, q), SameSigned-Agrees f f' rest s h)

  -- After a message was let through, any verifier with the same key lets through every message with
  -- the same signature and signed payload that gives the signed fields the same values, whatever
  -- its other fields, as long as its nonce is not empty and not seen and its stamp is in the window:
  -- neither the nonce nor the stamp is covered by the signature.
  pub verify_resealed :
      (r r' : Readings) (v v' : Verifier) (msg msg' : String) (env env' : SignatureEnvelope)
      (payload f f' : Map String) (signed_at : ℕ)
      → v.enabled ≡ true
      → lib.unmarshal_envelope msg ≡ some env
      → (verify lib r v msg).1 ≡ none
      → lib.unmarshal_fields env.signed_payload ≡ some payload
      → lib.unmarshal_fields msg ≡ some f
      → v'.enabled ≡ true
      → v'.public_key ≡ v.public_key
      → lib.unmarshal_envelope msg' ≡ some env'
      → env'.signature ≡ env.signature
      → env'.signed_payload ≡ env.signed_payload
      → env'.nonce ≢ ""
      → lookup env'.nonce v'.seen_nonces ≡ none
      → env'.signed_at ≢ ""
      → lib.parse_rfc3339 env'.signed_at ≡ some signed_at
      → is_outside_window r'.checked signed_at ≡ false
      → lib.unmarshal_fields msg' ≡ some f'
      → SameSigned f f' payload
      → (verify lib r' v' msg').1 ≡ none
  verify_resealed r r' v v' msg msg' env env' payload f f' t on e ok₁ pj fj on' key e' sg sp n un s
        st win fj' same =
      let a = verify_sound lib r v msg env on e ok₁ in
      let ep : a.payload_fields ≡ payload = cc (a.payload_json, pj) in
      let ef : a.msg_fields ≡ f = cc (a.msg_json, fj) in
      verify_complete lib r' v' msg' env' on' e' (record {
        signed_at = t;
        sig = a.sig;
        payload_fields = payload;
        msg_fields = f';
        has_signature = rw sg a.has_signature;
        has_payload = rw sp a.has_payload;
        has_stamp = s;
        has_nonce = n;
        stamp = st;
        in_window = (is_outside_window-eq-false_iff r'.checked t).0 win;
        decoded = rw sg a.decoded;
        signed = rw (key, sp) a.signed;
        payload_json = rw sp pj;
        msg_json = fj';
        agrees =
            SameSigned-Agrees f f' payload same
              (subst₂ (λ g p. All (Agrees lib g) p) ef ep a.agrees);
        unseen = un;
      })
