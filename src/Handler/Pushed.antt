-- ===== src/Handler/Pushed.antt =====
-- pkg/ws/handler.go: the identifiers that a config push lists.
use forager.Prelude.{
  ◌≡◌, ◌⊎◌, inl, inr, refl, Bool-cases, true, ◌&&◌, String, Option, none, some, List, [], ◌∷◌, ◌++◌,
  map, arith, eq_iff, ◌==◌, string_eq, Map, Listed, Result-cases,
}
use forager.Errors.{GoError}
use forager.Registry.{Proxy, DatasourceEntry}
use forager.Values.{Value, normalize_config_values}
use forager.Secrets.{Creds}
use forager.Discovery.SshAccess.{ssh_access_enabled, ssh_access_config}
use forager.Handler.{Datasource, State, World}
use forager.Handler.Sync.{
  Module, signing_enabled, is_member, with_cidrs, new_proxy_by_type, resolve_creds, sibling_id,
  sibling_entry, entry_of, add_configured, add_sibling, add_main, configure_with,
  configure_datasource, with_creds, sync_one, sync_all, register,
}

-- A discovery datasource whose configuration enables SSH access.
abbrev pub HasSibling : Datasource → Type 0
HasSibling ds =
    (ds.proxy_type ≡ "discovery-proxy")
    × (ssh_access_enabled (with_cidrs ds.allowed_hosts (normalize_config_values ds.config)) ≡ true)

-- The identifier is that of a datasource of the push, or of the SSH sibling of one that enables it.
abbrev pub Pushed : World → String → List Datasource → Type 0
Pushed w j [] = ⊥
Pushed w j (ds ∷ dss) = (j ≡ ds.id) ⊎ (((j ≡ sibling_id w ds.id) × HasSibling ds) ⊎ Pushed w j dss)

abbrev pub ids_of : List Datasource → List String
ids_of = map (λ (ds : Datasource). ds.id)

member-append :
    (j : String) (xs ys : List String)
    → is_member j (xs ++ ys) ≡ true
    → (is_member j xs ≡ true) ⊎ (is_member j ys ≡ true)
member-append j [] ys h = inr h
member-append j (x ∷ xs) ys h = elim (Bool-cases (x == j)) [
  | inl here ↦ inl (rw here refl)
  | inr other ↦ elim (member-append j xs ys (rw other at h)) [
    | inl left ↦ inl (rw other left)
    | inr right ↦ inr right
  ]
]

member-append_left :
    (j : String) (xs ys : List String) → is_member j xs ≡ true → is_member j (xs ++ ys) ≡ true
member-append_left j [] ys h = absurd (ground arith)
member-append_left j (x ∷ xs) ys h = elim (Bool-cases (x == j)) [
  | inl here ↦ rw here refl
  | inr other ↦ rw other (member-append_left j xs ys (rw other at h))
]

member-append_right :
    (j : String) (xs ys : List String) → is_member j ys ≡ true → is_member j (xs ++ ys) ≡ true
member-append_right j [] ys h = h
member-append_right j (x ∷ xs) ys h = ground (arith, member-append_right j xs ys h)

module _ (w : World) (ds : Datasource) (j : String) where
  configured_member :
      (e : Option GoError) (entry : DatasourceEntry) (p : Proxy) (s : State)
      → is_member j (add_configured w e entry p s).1 ≡ true
      → j ≡ entry.id
  configured_member (some e) entry p s h = absurd (ground arith)
  configured_member none entry p s h = ground (arith, eq_iff entry.id j)

  sibling_member :
      (config : Map Value) (creds : Creds) (s : State)
      → is_member j (add_sibling w ds config creds s).1 ≡ true
      → (j ≡ sibling_id w ds.id)
        × (ds.proxy_type ≡ "discovery-proxy")
        × (ssh_access_enabled config ≡ true)
  unfolding add_sibling
  sibling_member config creds s h =
      elim (Bool-cases (ds.proxy_type == "discovery-proxy" && ssh_access_enabled config)) [
        | inr plain ↦ absurd (ground arith)
        | inl access ↦ elim (Result-cases (ssh_access_config config (signing_enabled s.verifier))) [
          | inr (e, refused) ↦ absurd (ground arith)
          | inl (ssh_config, built) ↦
              let p = w.new_proxy (sibling_id w ds.id) "ssh-proxy" in
              (
                ground (
                  arith,
                  configured_member (w.configure p ssh_config creds)
                      (sibling_entry w (entry_of w ds)) p s,
                ),
                ground (arith, eq_iff ds.proxy_type "discovery-proxy"),
                ground arith,
              )
        ]
      ]

  main_member :
      (e : Option GoError) (config : Map Value) (creds : Creds) (p : Proxy) (s : State)
      → is_member j (add_main w e ds config creds p s).1 ≡ true
      → (j ≡ sibling_id w ds.id)
        × (ds.proxy_type ≡ "discovery-proxy")
        × (ssh_access_enabled config ≡ true)
  main_member (some e) config creds p s h = absurd (ground arith)
  main_member none config creds p s h =
      sibling_member config creds (register w ds.id (entry_of w ds) p s) h

  module_member :
      (m : Option (Module × Map Value)) (creds : Creds) (s : State)
      → new_proxy_by_type ds.proxy_type ds.type (normalize_config_values ds.config) ds.allowed_hosts
        ≡ m
      → is_member j (configure_with w m ds creds s).1 ≡ true
      → (j ≡ sibling_id w ds.id) × HasSibling ds
  unfolding new_proxy_by_type
  module_member none creds s e h = absurd (ground arith)
  module_member (some (kind, config)) creds s e h =
      let p = w.new_proxy ds.id ds.proxy_type in
      let (same, discovery, enabled) =
        main_member (w.configure p config creds) config creds p s h in
      let given : with_cidrs ds.allowed_hosts (normalize_config_values ds.config) ≡ config =
        let e' = rw discovery at e in ground arith in
      (same, (discovery, rw given enabled))

  creds_member :
      (creds : Option Creds) (s : State)
      → is_member j (with_creds w ds creds s).1 ≡ true
      → (j ≡ sibling_id w ds.id) × HasSibling ds
  unfolding configure_datasource
  creds_member none s h = absurd (ground arith)
  creds_member (some creds) s h = module_member _ creds s refl h

  one_member :
      (s : State)
      → is_member j (sync_one w ds s).1 ≡ true
      → (j ≡ ds.id) ⊎ ((j ≡ sibling_id w ds.id) × HasSibling ds)
  unfolding sync_one
  one_member s h = elim (Bool-cases (ds.id == j)) [
    | inl same ↦ inl (ground (arith, eq_iff ds.id j))
    | inr other ↦
        inr (creds_member (resolve_creds w ds s).1 (resolve_creds w ds s).0 (ground arith))
  ]

  own_member : (s : State) → j ≡ ds.id → is_member j (sync_one w ds s).1 ≡ true
  unfolding sync_one
  own_member s same = ground (arith, eq_iff ds.id j)

module _ (w : World) (j : String) where
  -- What the loop adds to `newIDs` is listed by the push.
  pub sync_all-Pushed :
      (dss : List Datasource) (new_ids : List String) (s : State)
      → is_member j (sync_all w dss new_ids s).1 ≡ true
      → (is_member j new_ids ≡ true) ⊎ Pushed w j dss
  unfolding sync_all
  sync_all-Pushed [] new_ids s h = inl h
  sync_all-Pushed (ds ∷ dss) new_ids s h =
      let more = (sync_one w ds s).1 in
      elim (sync_all-Pushed dss (more ++ new_ids) (sync_one w ds s).0 h) [
        | inr later ↦ inr (inr (inr later))
        | inl here ↦ elim (member-append j more new_ids here) [
          | inr before ↦ inl before
          | inl added ↦ elim (one_member w ds j s added) [
            | inl own ↦ inr (inl own)
            | inr sibling ↦ inr (inr (inl sibling))
          ]
        ]
      ]

  sync_all_member :
      (dss : List Datasource) (new_ids : List String) (s : State)
      → is_member j new_ids ≡ true
      → is_member j (sync_all w dss new_ids s).1 ≡ true
  unfolding sync_all
  sync_all_member [] new_ids s h = h
  sync_all_member (ds ∷ dss) new_ids s h =
      let more = (sync_one w ds s).1 in
      sync_all_member dss (more ++ new_ids) (sync_one w ds s).0
        (member-append_right j more new_ids h)

  -- Every datasource of the push is in `newIDs`, also one that could not be configured.
  pub pushed_member :
      (dss : List Datasource) (new_ids : List String) (s : State)
      → Listed j (ids_of dss)
      → is_member j (sync_all w dss new_ids s).1 ≡ true
  unfolding sync_all
  pushed_member [] new_ids s h = absurd h
  pushed_member (ds ∷ dss) new_ids s (inl own) =
      let more = (sync_one w ds s).1 in
      sync_all_member dss (more ++ new_ids) (sync_one w ds s).0
        (member-append_left j more new_ids (own_member w ds j s own))
  pushed_member (ds ∷ dss) new_ids s (inr later) =
      pushed_member dss ((sync_one w ds s).1 ++ new_ids) (sync_one w ds s).0 later
