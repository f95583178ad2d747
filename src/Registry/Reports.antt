-- ===== src/Registry/Reports.antt =====
-- pkg/proxy/registry.go: what a health report and the recorded request failures say.
use forager.Prelude.{
  ℕ, ◌+◌, ◌≡◌, refl, Bool, true, false, String, Option, none, some, arith, eq_iff, ltb, nat_eq,
  string_eq, if◌then◌else◌, lookup-insert, lookup-delete,
}
use forager.Errors.{GoError, Regexps, is_integration_error, redact_error}
use forager.Registry.{
  Proxy, Registry, RequestError, request_error_ttl, record_request_result, recent_request_error,
  get,
}

module _ (re : Regexps) (now later : ℕ) (id : String) (r : Registry) where
  -- For a registered datasource: a failure that is the integration's, with the request's context
  -- still alive, is what later reports show, redacted, until fifteen minutes have passed; a success
  -- leaves nothing to show; and any other failure, or one whose context is done, changes nothing.
  pub request_failure_lem :
      (err : GoError) {p : Proxy}
      → get id r ≡ some p
      → ((recent_request_error later id (record_request_result re false now id none r)).1 ≡ none)
        × (is_integration_error (some err) ≡ true
            → (recent_request_error later id (record_request_result re false now id (some err) r)).1
              ≡ (if ltb (now + request_error_ttl) later
                  then none
                  else some (redact_error re err.text)))
        × (is_integration_error (some err) ≡ false
            → record_request_result re false now id (some err) r ≡ r)
        × (record_request_result re true now id (some err) r ≡ r)
  unfolding record_request_result recent_request_error get
  request_failure_lem err here =
      let e : RequestError = record { msg = redact_error re err.text; at = now } in
      (
        ground (arith, lookup-delete id id r.req_errors, eq_iff id id),
        λ h. ground (arith, lookup-insert id id e r.req_errors, eq_iff id id),
        λ h. ground arith,
        refl,
      )

  -- A result for a datasource that is no longer registered changes nothing.
  pub request_result_removed :
      (ctx_done : Bool) (err : Option GoError)
      → get id r ≡ none
      → record_request_result re ctx_done now id err r ≡ r
  unfolding record_request_result get
  request_result_removed ctx_done none gone = ground arith
  request_result_removed ctx_done (some err) gone = ground arith
