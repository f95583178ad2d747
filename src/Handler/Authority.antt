-- ===== src/Handler/Authority.antt =====
-- pkg/ws/handler.go: with an enabled verifier nothing acts on a message that is not authentic.
use forager.Prelude.{◌≡◌, ◌≢◌, true, String, Option-cases, none, some, arith, inl, inr}
use forager.Signing.Verifier.{Verifier, Refusal, verify}
use forager.Signing.Nonces.{check_and_record_nonce}
use forager.Signing.Binding.{IsAuthenticMessage, verify-IsAuthenticMessage}
use forager.Handler.{Envelope, error_reply, no_code, signature_failed, State, World}
use forager.Handler.Dispatch.{handle_message}

-- A refused message leaves the verifier as it was.
refused_unchanged :
    (w : World) (v : Verifier) (msg : String) (e : Refusal)
    → (verify w.signing w.readings v msg).1 ≡ some e
    → (verify w.signing w.readings v msg).0 ≡ v
unfolding verify check_and_record_nonce
refused_unchanged w v msg e h = ground arith

undecoded_unchanged :
    (w : World) (msg : String) (s : State)
    → w.unmarshal_envelope msg ≡ none
    → (handle_message w msg s).0 ≡ s
unfolding handle_message
undecoded_unchanged w msg s h = ground arith

module _ (w : World) (msg : String) (s : State) (v : Verifier) (has_verifier : s.verifier ≡ some v)
    (on : v.enabled ≡ true) where
  -- With an enabled verifier, a message that decodes and that it refuses gets a 403 and changes
  -- nothing: no proxy is called, and no datasource, credential or cached secret changes.
  pub refused_message :
      (env : Envelope) (e : Refusal)
      → w.unmarshal_envelope msg ≡ some env
      → (verify w.signing w.readings v msg).1 ≡ some e
      → handle_message w msg s ≡ (s, some (error_reply env.request_id 403 no_code signature_failed))
  unfolding handle_message
  refused_message env e decodes h = ground (arith, refused_unchanged w v msg e h)

  -- With an enabled verifier, every message that changes the handler's state in any way has a
  -- signature envelope that decodes and passes every check of the signature, whatever its action.
  pub acted-IsAuthentic :
      (handle_message w msg s).0 ≢ s → IsAuthenticMessage w.signing w.readings v msg
  acted-IsAuthentic acted = elim (Option-cases (w.unmarshal_envelope msg)) [
    | inl undecoded ↦ absurd (acted (undecoded_unchanged w msg s undecoded))
    | inr (env, d) ↦ elim (Option-cases (verify w.signing w.readings v msg).1) [
      | inl passed ↦ verify-IsAuthenticMessage w.signing w.readings v msg on passed
      | inr (e, refused) ↦ absurd (acted (rw (refused_message env e d refused)))
    ]
  ]
