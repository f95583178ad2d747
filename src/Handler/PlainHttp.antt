-- ===== src/Handler/PlainHttp.antt =====
-- pkg/ws/handler.go: an HTTP message that names no datasource.
use forager.Prelude.{
  ◌≡◌, ◌≢◌, inl, inr, refl, Option-cases, true, false, String, some, ◌∷◌, arith, eq_iff, ◌==◌,
  string_eq, Listed,
}
use forager.Prelude.Keyed.{IsKeyed}
use forager.Registry
use forager.Registry.{Proxy, Registry, RequestError, record_request_result, recent_request_error}
use forager.Handler.{
  LegacyRequest, HttpRequest, datasource_not_found, ambiguous_datasource, id_required,
  no_http_proxy, error_reply, State, World,
}
use forager.Handler.Requests.{
  plain_request, http_proxies, serve_http, handle_request, handle_legacy_request,
}
use forager.Handler.HttpProxies.{
  IsHttp, Distinct-keys, Listed-lookup, http_proxies-none, http_proxies-one, http_proxies-two,
}

-- A message that is no action in the legacy format.
abbrev pub IsNoAction : World → String → Type 0
IsNoAction w msg = (l : LegacyRequest) → w.unmarshal_legacy msg ≡ some l → l.action_name ≡ ""

module _ (w : World) (msg request_id : String) (s : State) where
  tried :
      (h : HttpRequest)
      → IsNoAction w msg
      → w.unmarshal_http msg ≡ some h
      → h.url ≢ ""
      → handle_request w msg request_id "" s
        ≡ serve_http w (http_proxies w (Registry.all s.registry) s) h request_id s
  unfolding handle_request handle_legacy_request
  tried h no_action e u = elim (Option-cases (w.unmarshal_legacy msg)) [
    | inl none_left ↦ rw (none_left, e) (rw (url_given) refl)
    | inr (l, legacy) ↦ rw (legacy, nameless l legacy, e) (rw (url_given) refl)
  ]
    where
      url_given : (h.url == "") ≡ false
      url_given = ground (arith, eq_iff h.url "")

      nameless :
          (l : LegacyRequest) → w.unmarshal_legacy msg ≡ some l → (l.action_name == "") ≡ true
      nameless l legacy = (eq_iff l.action_name "").1 (no_action l legacy)

  -- A message that names no datasource, is no action in the legacy format, and has a URL: with no
  -- http-proxy registered it gets a 404, and with two or more a 400, and then nothing changes; with
  -- exactly one, that proxy is called with the request. The registry has one proxy for a datasource.
  pub plain_http_lem :
      (h : HttpRequest)
      → IsNoAction w msg
      → w.unmarshal_http msg ≡ some h
      → h.url ≢ ""
      → IsKeyed s.registry.proxies
      → (((j : String) (p : Proxy) → IsHttp w s j p → ⊥)
          → handle_request w msg request_id "" s
            ≡ (s, error_reply request_id 404 datasource_not_found no_http_proxy))
        × ((j : String) (p : Proxy)
            → IsHttp w s j p
            → ((k : String) (q : Proxy) → IsHttp w s k q → k ≡ j)
            → (handle_request w msg request_id "" s).0.calls ≡ (p, plain_request w h) ∷ s.calls)
        × ((j k : String) (p q : Proxy)
            → IsHttp w s j p
            → IsHttp w s k q
            → j ≢ k
            → handle_request w msg request_id "" s
              ≡ (s, error_reply request_id 400 ambiguous_datasource id_required))
  unfolding Registry.all Registry.get
  plain_http_lem h no_action e u keyed =
      let ids = Registry.all s.registry in
      let listed : (j : String) (p : Proxy) → IsHttp w s j p → Listed j ids =
        λ j p x. Listed-lookup j s.registry.proxies x.0 in
      (
        λ n. rw (tried h no_action e u, http_proxies-none w s ids (λ j p l. n j p)) refl,
        λ j p x only.
            rw
              (
                tried h no_action e u,
                http_proxies-one w s ids j p (Distinct-keys s.registry.proxies keyed) (listed j p x)
                    x only,
              )
              refl,
        λ j k p q x y ne.
            let (a, b, rest, found) =
              http_proxies-two w s ids j k p q (listed j p x) (listed k q y) ne x y in
            rw (tried h no_action e u, found) refl,
      )
