-- ===== src/Signing/Signer.antt =====
-- pkg/signing/sign.go: `Signer.Sign` and the table of the fields that it signs.
use forager.Prelude.{
  ◌≢◌, inl, inr, Option-cases, lookup-insert, ◌≡◌, refl, Bool, false, ◌||◌, String, Option, none,
  some, List, [], ◌∷◌, arith, eq_iff, ◌==◌, string_eq, if◌then◌else◌, Map, lookup, insert, Result,
  ok, err,
}

-- encoding/json, encoding/base64, crypto/ed25519, time and uuid, as far as `Sign` calls them.
pub record SignerCodecs : Type 0 where
  pub unmarshal_fields : String → Option (Map String)
  pub unmarshal_string : String → Option String
  pub marshal_fields : Map String → String
  pub marshal_string : String → String
  pub encode_base64 : String → String
  -- private key, message
  pub ed25519_sign : String → String → String

pub record Signer : Type 0 where
  pub private_key : String
  pub key_id : String

pub data SignError : Type 0 where
  invalid_json : SignError

abbrev pub default_signing_fields : List String
default_signing_fields = "action" ∷ "datasource_id" ∷ "params" ∷ []

-- The table `SigningFields`; the default list is that of every other action.
unfoldable pub signing_fields : String → List String
signing_fields action =
    if action == "datasource_config_sync"
    then "action" ∷ "account_id" ∷ "datasources" ∷ []
    else if action == "http_request"
    then "action" ∷ "datasource_id" ∷ "method" ∷ "url" ∷ "header" ∷ "body" ∷ []
    else default_signing_fields

unfoldable pub sign_payload : List String → Map String → Map String
sign_payload [] raw = []
sign_payload (field ∷ fields) raw =
    let rest = sign_payload fields raw in
    elim (lookup field raw) [ some val ↦ insert field val rest | none ↦ rest ]

module _ (lib : SignerCodecs) where
  -- A value that does not decode leaves the Go string empty.
  abbrev pub string_or_empty : Option String → String
  string_or_empty none = ""
  string_or_empty (some raw) = elim (lib.unmarshal_string raw) [ some s ↦ s | none ↦ "" ]

  abbrev pub body_action : Option String → String
  body_action none = ""
  body_action (some body) = elim (lib.unmarshal_fields body) [
    | some fields ↦ string_or_empty (lookup "action_name" fields)
    | none ↦ ""
  ]

  -- The action that chooses the fields: `action`, or `body.action_name` of the legacy format.
  unfoldable pub action_of : Map String → String
  action_of raw =
      let action = string_or_empty (lookup "action" raw) in
      if action == "" then body_action (lookup "body" raw) else action

  -- The message with the signature metadata; `now` and `nonce` are the clock's and uuid's.
  unfoldable pub sign : Signer → String → String → String → Result SignError String
  sign s now nonce msg = elim (lib.unmarshal_fields msg) [
    | none ↦ err invalid_json
    | some raw ↦
        let payload = lib.marshal_fields (sign_payload (signing_fields (action_of raw)) raw) in
        let sig = lib.encode_base64 (lib.ed25519_sign s.private_key payload) in
        let signed = insert "nonce" (lib.marshal_string nonce) (
          insert "signed_at" (lib.marshal_string now) (
            insert "signature" (lib.marshal_string sig)
              (insert "signed_payload" (lib.marshal_string payload) raw))) in
        ok (
          lib.marshal_fields (
            if s.key_id == ""
            then signed
            else insert "key_id" (lib.marshal_string s.key_id) signed))
  ]

abbrev pub contains : String → List String → Bool
contains key [] = false
contains key (field ∷ fields) = field == key || contains key fields

-- The signed payload holds the message's values of the table's fields, and nothing else.
lookup-sign_payload :
    (key : String) (fields : List String) (raw : Map String)
    → lookup key (sign_payload fields raw) ≡ (if contains key fields then lookup key raw else none)
unfolding sign_payload lookup
lookup-sign_payload key [] raw = refl
lookup-sign_payload key (field ∷ fields) raw = elim (Option-cases (lookup field raw)) [
  | inl missing ↦ ground (arith, missing, eq_iff field key, lookup-sign_payload key fields raw)
  | inr (val, found) ↦ ground (
    arith,
    found,
    eq_iff field key,
    lookup-sign_payload key fields raw,
    lookup-insert field key val (sign_payload fields raw),
  )
]

-- For an action with the default list, a message that has none of the top-level fields `action`,
-- `datasource_id` and `params` gets an empty signed payload, whatever its body: the legacy format,
-- whose fields all stand in `body`, is signed without any of them.
legacy_payload_empty :
    (lib : SignerCodecs) (raw : Map String)
    → action_of lib raw ≢ "datasource_config_sync"
    → action_of lib raw ≢ "http_request"
    → lookup "action" raw ≡ none
    → lookup "datasource_id" raw ≡ none
    → lookup "params" raw ≡ none
    → sign_payload (signing_fields (action_of lib raw)) raw ≡ []
unfolding sign_payload signing_fields
legacy_payload_empty lib raw not_sync not_http no_action no_id no_params = ground (
  arith,
  no_action,
  no_id,
  no_params,
  eq_iff (action_of lib raw) "datasource_config_sync",
  eq_iff (action_of lib raw) "http_request",
)
