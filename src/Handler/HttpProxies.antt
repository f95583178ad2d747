-- ===== src/Handler/HttpProxies.antt =====
-- pkg/ws/handler.go: the http proxies that a message without a datasource may reach.
use forager.Prelude.{
  ◌≡◌, ◌≢◌, ◌⊎◌, inl, inr, refl, sym, ◌∙◌, Bool-cases, Option-cases, String, none, some, List, [],
  ◌∷◌, arith, eq_iff, ◌==◌, string_eq, Map, lookup, Listed,
}
use forager.Prelude.Keyed.{IsKeyed}
use forager.Registry
use forager.Registry.{Proxy, keys}
use forager.Handler.{State, World}
use forager.Handler.Requests.{http_proxies}

abbrev pub IsHttp : World → State → String → Proxy → Type 0
IsHttp w s j p = (Registry.get j s.registry ≡ some p) × (w.type_of p ≡ "http-proxy")

abbrev pub Distinct : List String → Type 0
Distinct [] = Unit
Distinct (id ∷ ids) = (Listed id ids → ⊥) × Distinct ids

module _ {V : Type 0} where
  pub Listed-lookup : (j : String) (m : Map V) {v : V} → lookup j m ≡ some v → Listed j (keys m)
  unfolding lookup
  Listed-lookup j [] h = absurd (ground arith)
  Listed-lookup j ((k, u) ∷ m) h = elim (Bool-cases (k == j)) [
    | inl same ↦ inl (ground (arith, eq_iff k j))
    | inr differ ↦ inr (Listed-lookup j m (rw differ at h))
  ]

  not_listed : (j : String) (m : Map V) → lookup j m ≡ none → Listed j (keys m) → ⊥
  unfolding lookup
  not_listed j [] h l = l
  not_listed j ((k, u) ∷ m) h (inl same) = ground (arith, eq_iff k j)
  not_listed j ((k, u) ∷ m) h (inr later) = not_listed j m (ground (arith, eq_iff k j)) later

  pub Distinct-keys : (m : Map V) → IsKeyed m → Distinct (keys m)
  Distinct-keys [] h = tt
  Distinct-keys ((k, u) ∷ m) h = (not_listed k m h.0, Distinct-keys m h.1)

module _ (w : World) (s : State) where
  -- A round of the loop, for a datasource that has an http proxy and for one that has none.
  taken :
      (id : String) (ids : List String) (p : Proxy)
      → IsHttp w s id p
      → http_proxies w (id ∷ ids) s ≡ p ∷ http_proxies w ids s
  taken id ids p h = ground (arith, eq_iff (w.type_of p) "http-proxy")

  passed :
      (id : String) (ids : List String)
      → ((p : Proxy) → IsHttp w s id p → ⊥)
      → http_proxies w (id ∷ ids) s ≡ http_proxies w ids s
  passed id ids h = elim (Option-cases (Registry.get id s.registry)) [
    | inl gone ↦ rw gone refl
    | inr (p, here) ↦ elim (Bool-cases (w.type_of p == "http-proxy")) [
      | inl http ↦ absurd (h p (here, (eq_iff (w.type_of p) "http-proxy").0 http))
      | inr other ↦ rw (here, other) refl
    ]
  ]

  is_http : (id : String) → ((p : Proxy) × IsHttp w s id p) ⊎ ((p : Proxy) → IsHttp w s id p → ⊥)
  is_http id = elim (Option-cases (Registry.get id s.registry)) [
    | inl gone ↦ inr (λ q h. ground arith)
    | inr (p, here) ↦ elim (Bool-cases (w.type_of p == "http-proxy")) [
      | inl http ↦ inl (p, (here, (eq_iff (w.type_of p) "http-proxy").0 http))
      | inr other ↦ inr (λ q h.
          let same : p ≡ q = ground arith in ground (arith, eq_iff (w.type_of p) "http-proxy"))
    ]
  ]

  pub http_proxies-none :
      (ids : List String)
      → ((j : String) (p : Proxy) → Listed j ids → IsHttp w s j p → ⊥)
      → http_proxies w ids s ≡ []
  http_proxies-none [] h = refl
  http_proxies-none (id ∷ ids) h =
      rw (passed id ids (λ p. h id p (inl refl))) (http_proxies-none ids (λ j p l. h j p (inr l)))

  pub http_proxies-one :
      (ids : List String) (j : String) (p : Proxy)
      → Distinct ids
      → Listed j ids
      → IsHttp w s j p
      → ((k : String) (q : Proxy) → IsHttp w s k q → k ≡ j)
      → http_proxies w ids s ≡ p ∷ []
  http_proxies-one [] j p d l h only = absurd l
  http_proxies-one (id ∷ ids) j p d (inl same) h only =
      let here : IsHttp w s id p = rw same at h in
      rw (taken id ids p here)
        (rw (http_proxies-none ids (λ k q l x. d.0 (rw (only k q x ∙ same) at l))) refl)
  http_proxies-one (id ∷ ids) j p d (inr later) h only =
      rw (passed id ids (λ q x. d.0 (rw (← only id q x) at later)))
        (http_proxies-one ids j p d.1 later h only)

  some_http :
      (ids : List String) (j : String) (p : Proxy)
      → Listed j ids
      → IsHttp w s j p
      → (q : Proxy) × (qs : List Proxy) × (http_proxies w ids s ≡ q ∷ qs)
  some_http [] j p l h = absurd l
  some_http (id ∷ ids) j p (inl same) h = (p, http_proxies w ids s, taken id ids p (rw same at h))
  some_http (id ∷ ids) j p (inr later) h =
      let (q, qs, e) = some_http ids j p later h in
      elim (is_http id) [
        | inl (o, here) ↦ (o, http_proxies w ids s, taken id ids o here)
        | inr other ↦ (q, qs, passed id ids other ∙ e)
      ]

  pub http_proxies-two :
      (ids : List String) (j k : String) (p q : Proxy)
      → Listed j ids
      → Listed k ids
      → j ≢ k
      → IsHttp w s j p
      → IsHttp w s k q
      → (a : Proxy) × (b : Proxy) × (rest : List Proxy) × (http_proxies w ids s ≡ a ∷ b ∷ rest)
  http_proxies-two [] j k p q l m ne h x = absurd l
  http_proxies-two (id ∷ ids) j k p q (inl same) (inl same') ne h x = absurd (ne (same ∙ sym same'))
  http_proxies-two (id ∷ ids) j k p q (inl same) (inr later) ne h x =
      let (b, rest, e) = some_http ids k q later x in
      (p, b, rest, rw (taken id ids p (rw same at h), e) refl)
  http_proxies-two (id ∷ ids) j k p q (inr later) (inl same) ne h x =
      let (b, rest, e) = some_http ids j p later h in
      (q, b, rest, rw (taken id ids q (rw same at x), e) refl)
  http_proxies-two (id ∷ ids) j k p q (inr l) (inr m) ne h x =
      let (a, b, rest, e) = http_proxies-two ids j k p q l m ne h x in
      elim (is_http id) [
        | inl (o, here) ↦ (o, a, b ∷ rest, rw (taken id ids o here, e) refl)
        | inr other ↦ (a, b, rest, passed id ids other ∙ e)
      ]

  -- Where the loop finds any, the first it finds is registered.
  pub http_proxies-registered :
      (ids : List String) (p : Proxy) (ps : List Proxy)
      → http_proxies w ids s ≡ p ∷ ps
      → (j : String) × IsHttp w s j p
  http_proxies-registered [] p ps e = absurd (ground arith)
  http_proxies-registered (id ∷ ids) p ps e = elim (is_http id) [
    | inl (o, here) ↦
        let same : o ≡ p = let e' = taken id ids o here in ground arith in (id, rw same at here)
    | inr other ↦ http_proxies-registered ids p ps (sym (passed id ids other) ∙ e)
  ]
