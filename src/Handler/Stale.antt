-- ===== src/Handler/Stale.antt =====
-- pkg/ws/handler.go: which datasources a config push removes.
use text.Mathlib.Text.{starts_with}
use forager.Prelude.{
  ◌≡◌, ◌≢◌, ◌⊎◌, inl, inr, refl, ◌∙◌, is_some, lookup-insert, Bool-cases, true, false, String,
  Option, none, some, List, [], ◌∷◌, arith, eq_iff, ◌==◌, string_eq, Map, lookup, lookup-delete,
  Listed,
}
use forager.Errors.{GoError}
use forager.Registry
use forager.Registry.{Registry, Proxy, keys}
use forager.Handler.{Datasource, State, World}
use forager.Values.{Value}
use forager.Secrets.{Creds}
use forager.Handler.Pushed.{Pushed, ids_of, sync_all-Pushed, pushed_member}
use forager.Handler.Sync.{
  register, resolve_creds, add_sibling, sibling_id, sibling_entry, entry_of, configure_datasource,
  sync_one, add_main, Module, configure_with, with_creds, is_member, is_kept, remove_stale,
  sync_all, apply_push,
}

module _ {V : Type 0} where
  member_of_lookup :
      (j : String) (m : Map V) {v : V} → lookup j m ≡ some v → is_member j (keys m) ≡ true
  unfolding lookup
  member_of_lookup j [] h = cc
  member_of_lookup j ((k, u) ∷ m) h = elim (Bool-cases (k == j)) [
    | inl same ↦ rw same
    | inr differ ↦ rw differ (member_of_lookup j m (rw differ at h))
  ]

module _ (w : World) where
  remove_missing :
      (id : String) (r : Registry) → Registry.get id r ≡ none → (Registry.remove w.close id r).0 ≡ r
  unfolding Registry.get Registry.remove
  remove_missing id r h = ground arith

  -- A round leaves a datasource registered if it was, and is kept, is another one, or cannot close.
  remove-get :
      (id j : String) (r : Registry) (p : Proxy)
      → Registry.get j (Registry.remove w.close id r).0 ≡ some p
      → (Registry.get j r ≡ some p) × (id ≡ j → w.close p ≢ none)
  unfolding Registry.get Registry.remove
  remove-get id j r p h = ground (arith, eq_iff id j, lookup-delete id j r.proxies)

  remove_stale-get :
      (new_ids ids : List String) (j : String) (r : Registry) (p : Proxy)
      → Registry.get j (remove_stale w new_ids ids r) ≡ some p
      → (Registry.get j r ≡ some p)
        × (is_member j ids ≡ true → is_kept w new_ids j ≡ false → w.close p ≢ none)
  unfolding remove_stale
  remove_stale-get new_ids [] j r p h = (h, λ m. cc)
  remove_stale-get new_ids (id ∷ ids) j r p h = elim (Bool-cases (is_kept w new_ids id)) [
    | inl kept ↦
        let ih = remove_stale-get new_ids ids j r p (rw kept at h) in
        (ih.0, λ m stale. ground (arith, ih.1, eq_iff id j))
    | inr stale ↦
        let r' = (Registry.remove w.close id r).0 in
        let ih = remove_stale-get new_ids ids j r' p (rw stale at h) in
        let first = remove-get id j r p ih.0 in
        (first.0, λ m s. ground (arith, ih.1, first.1, eq_iff id j))
  ]

  registered_member :
      (j : String) (r : Registry) (p : Proxy)
      → Registry.get j r ≡ some p
      → is_member j (Registry.all r) ≡ true
  unfolding Registry.get Registry.all
  registered_member j r p h = member_of_lookup j r.proxies h

  stale_cases :
      (ids : List String) (j : String) (r : Registry) (p : Proxy)
      → (Registry.get j r ≡ some p)
        × (is_member j (Registry.all r) ≡ true → is_kept w ids j ≡ false → w.close p ≢ none)
      → (Registry.get j r ≡ some p → is_member j (Registry.all r) ≡ true)
      → (is_member j ids ≡ true) ⊎ ((starts_with j "local:" ≡ true) ⊎ (w.close p ≢ none))
  stale_cases ids j r p (here, stale) member = elim (Bool-cases (is_member j ids)) [
    | inl listed ↦ inl listed
    | inr missing ↦ elim (Bool-cases (starts_with j "local:")) [
      | inl is_local ↦ inr (inl is_local)
      | inr remote ↦ inr (inr (stale (member here) (rw missing remote)))
    ]
  ]

  remove_other :
      (id j : String) (r : Registry)
      → id ≢ j
      → Registry.get j (Registry.remove w.close id r).0 ≡ Registry.get j r
  unfolding Registry.get Registry.remove
  remove_other id j r ne = ground (arith, eq_iff id j, lookup-delete id j r.proxies)

  remove_keeps :
      (new_ids ids : List String) (j : String) (r : Registry)
      → is_kept w new_ids j ≡ true
      → Registry.get j (remove_stale w new_ids ids r) ≡ Registry.get j r
  unfolding remove_stale
  remove_keeps new_ids [] j r kept = refl
  remove_keeps new_ids (id ∷ ids) j r kept = elim (Bool-cases (is_kept w new_ids id)) [
    | inl stays ↦ rw stays (remove_keeps new_ids ids j r kept)
    | inr stale ↦ rw stale (
        remove_keeps new_ids ids j (Registry.remove w.close id r).0 kept
        ∙ remove_other id j r (λ same. cc (kept, stale, same)))
  ]

  registers :
      (id j : String) (e : Registry.DatasourceEntry) (p : Proxy) (s : State)
      → is_some (Registry.get j s.registry) ≡ true
      → is_some (Registry.get j (register w id e p s).registry) ≡ true
  unfolding Registry.get Registry.register
  registers id j e p s h = ground (arith, lookup-insert id j p s.registry.proxies)

  resolve_creds_registry :
      (ds : Datasource) (s : State) → (resolve_creds w ds s).0.registry ≡ s.registry
  unfolding resolve_creds
  resolve_creds_registry ds s = ground arith

  add_sibling_keeps :
      (ds : Datasource) (config : Map Value) (creds : Creds) (j : String) (s : State)
      → is_some (Registry.get j s.registry) ≡ true
      → is_some (Registry.get j (add_sibling w ds config creds s).0.registry) ≡ true
  unfolding add_sibling
  add_sibling_keeps ds config creds j s h =
      let id = sibling_id w ds.id in
      ground
        (arith, registers id j (sibling_entry w (entry_of w ds)) (w.new_proxy id "ssh-proxy") s h)

  add_main_keeps :
      (e : Option GoError) (ds : Datasource) (config : Map Value) (creds : Creds) (p : Proxy)
      (j : String) (s : State)
      → is_some (Registry.get j s.registry) ≡ true
      → is_some (Registry.get j (add_main w e ds config creds p s).0.registry) ≡ true
  add_main_keeps (some e) ds config creds p j s h = h
  add_main_keeps none ds config creds p j s h =
      add_sibling_keeps ds config creds j _ (registers ds.id j (entry_of w ds) p s h)

  configure_with_keeps :
      (m : Option (Module × Map Value)) (ds : Datasource) (creds : Creds) (j : String) (s : State)
      → is_some (Registry.get j s.registry) ≡ true
      → is_some (Registry.get j (configure_with w m ds creds s).0.registry) ≡ true
  configure_with_keeps none ds creds j s h = h
  configure_with_keeps (some (_, config)) ds creds j s h =
      add_main_keeps (w.configure _ config creds) ds config creds _ j s h

  with_creds_keeps :
      (ds : Datasource) (creds : Option Creds) (j : String) (s : State)
      → is_some (Registry.get j s.registry) ≡ true
      → is_some (Registry.get j (with_creds w ds creds s).0.registry) ≡ true
  unfolding configure_datasource
  with_creds_keeps ds none j s h = h
  with_creds_keeps ds (some creds) j s h = configure_with_keeps _ ds creds j s h

  -- A round of the loop over the pushed datasources drops nothing.
  sync_one_keeps :
      (ds : Datasource) (j : String) (s : State)
      → is_some (Registry.get j s.registry) ≡ true
      → is_some (Registry.get j (sync_one w ds s).0.registry) ≡ true
  unfolding sync_one
  sync_one_keeps ds j s h =
      with_creds_keeps ds (resolve_creds w ds s).1 j (resolve_creds w ds s).0
        (rw (resolve_creds_registry ds s) h)

  sync_all_keeps :
      (dss : List Datasource) (new_ids : List String) (j : String) (s : State)
      → is_some (Registry.get j s.registry) ≡ true
      → is_some (Registry.get j (sync_all w dss new_ids s).0.registry) ≡ true
  unfolding sync_all
  sync_all_keeps [] new_ids j s h = h
  sync_all_keeps (ds ∷ dss) new_ids j s h =
      sync_all_keeps dss _ j (sync_one w ds s).0 (sync_one_keeps ds j s h)

  only-Pushed :
      (dss : List Datasource) (j : String) (p : Proxy) (s : State)
      → (is_member j (sync_all w dss [] s).1 ≡ true)
        ⊎ ((starts_with j "local:" ≡ true) ⊎ (w.close p ≢ none))
      → Pushed w j dss ⊎ ((starts_with j "local:" ≡ true) ⊎ (w.close p ≢ none))
  only-Pushed dss j p s (inr why) = inr why
  only-Pushed dss j p s (inl listed) = elim (sync_all-Pushed w j dss [] s listed) [
    | inl before ↦ absurd (ground arith)
    | inr pushed ↦ inl pushed
  ]

  -- After a config push: whatever is registered is a datasource of the push or the SSH sibling of a
  -- discovery datasource of the push that enables it, has a local identifier, or has a proxy that
  -- could not be closed; a datasource of the push, also one that could not be configured, is
  -- registered as the loop over the push left it, and is registered if it was before; and a
  -- datasource with a local identifier that was registered still is.
  pub apply_push_lem :
      (dss : List Datasource) (j : String) (s : State)
      → ((p : Proxy)
          → Registry.get j (apply_push w dss s).registry ≡ some p
          → Pushed w j dss ⊎ ((starts_with j "local:" ≡ true) ⊎ (w.close p ≢ none)))
        × (Listed j (ids_of dss)
            → (Registry.get j (apply_push w dss s).registry
                ≡ Registry.get j (sync_all w dss [] s).0.registry)
              × (is_some (Registry.get j s.registry) ≡ true
                  → is_some (Registry.get j (apply_push w dss s).registry) ≡ true))
        × (starts_with j "local:" ≡ true
            → is_some (Registry.get j s.registry) ≡ true
            → is_some (Registry.get j (apply_push w dss s).registry) ≡ true)
  unfolding apply_push Registry.all
  apply_push_lem dss j s =
      let r = (sync_all w dss [] s).0.registry in
      let ids = (sync_all w dss [] s).1 in
      (
        λ p h. only-Pushed dss j p s (
            stale_cases ids j r p (remove_stale-get ids (Registry.all r) j r p h)
              (registered_member j r p)),
        λ m.
            let kept =
              remove_keeps ids (Registry.all r) j r
                (ground (arith, pushed_member w j dss [] s m)) in
            (kept, λ h. rw kept (sync_all_keeps dss [] j s h)),
        λ l h.
            rw (remove_keeps ids (Registry.all r) j r (ground arith)) (sync_all_keeps dss [] j s h),
      )
