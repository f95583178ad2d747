-- ===== src/Discovery/Inventory.antt =====
-- pkg/proxy/discovery/proxy.go: `handleInventory`, and what the datasource reports of itself.
pub mod Results
use forager.Prelude.{
  ℕ, ◌+◌, Bool, true, false, not, ◌&&◌, ◌||◌, String, List, [], ◌∷◌, ◌++◌, map, Option, none, some,
  ltb, if◌then◌else◌, is_some, length, Map, Result, ok, err, ◌>>=◌,
}
use forager.Prelude.Int.{ℤ}
use forager.Prelude.Bytes.{codes}
use forager.Discovery.Params.{Param, ParamError, string_slice_param}
use forager.Discovery.Pack.{Pack, PackCodecs}
use forager.Discovery.Executor.{Host, TargetResult, timed_out, failed, blank, inventory_host}
use forager.Discovery.Proxy.History.{forget_packs}
use forager.Discovery.Proxy.{
  Net, Scope, is_target_allowed, is_unrestricted, Packs, ResolveFailure, resolve_pack, map_err,
}

-- A datasource as a request finds it.
pub record Datasource : Type 0 where
  pub scope : Scope
  pub packs : Packs
  pub has_ssh : Bool
  pub has_ldap : Bool

-- What surrounds a batch: the names, the pack files, the hosts, and the targets whose turn comes
-- before the context is done, to be looked up and to be collected from.
pub record Batch : Type 0 where
  pub net : Net
  pub codecs : PackCodecs
  pub files : ℕ → Option (List ℕ)
  pub hosts : String → Host
  pub looked_up : String → Bool
  pub started : String → Bool

abbrev pub max_targets_per_request : ℕ
max_targets_per_request = 5000

pub data InventoryFailure : Type 0 where
  bad_targets : ParamError → InventoryFailure
  targets_required too_many_targets no_ssh : InventoryFailure
  no_pack : ResolveFailure → InventoryFailure

abbrev pub rejection : String → TargetResult
rejection host = record (blank host) {
  status = failed;
  error_text = codes "target is outside this datasource's allowed_cidrs";
}

abbrev pub is_in_scope : Batch → Scope → String → Bool
is_in_scope b s target = b.looked_up target && is_target_allowed b.net s target

-- `partitionTargetsByScope`
unfoldable pub partition_targets : Batch → Scope → List String → List String × List TargetResult
partition_targets b s [] = ([], [])
partition_targets b s (t ∷ ts) =
    let (allowed, rejected) = partition_targets b s ts in
    if is_in_scope b s t then (t ∷ allowed, rejected) else (allowed, rejection t ∷ rejected)

abbrev pub run_target : Batch → Pack → String → TargetResult
run_target b pack t =
    if b.started t
    then inventory_host (b.hosts t) t pack
    else record (blank t) { status = timed_out; error_text = codes "batch cancelled before start" }

-- `runInventory`
unfoldable pub run_inventory : Batch → Pack → List String → List TargetResult
run_inventory b pack [] = []
run_inventory b pack (t ∷ ts) = run_target b pack t ∷ run_inventory b pack ts

unfoldable pub run_batch : Batch → Scope → Pack → List String → List TargetResult
unfolding run_inventory partition_targets
run_batch b s pack targets =
    let (allowed, rejected) = partition_targets b s targets in
    run_inventory b pack allowed ++ rejected

abbrev pub check_targets :
    Result InventoryFailure (List String) → Result InventoryFailure (List String)
check_targets (err e) = err e
check_targets (ok []) = err targets_required
check_targets (ok (t ∷ ts)) =
    if ltb max_targets_per_request (length (t ∷ ts)) then err too_many_targets else ok (t ∷ ts)

abbrev pub with_pack :
    Batch
    → Datasource
    → List String
    → Packs × Result ResolveFailure Pack
    → Datasource × Result InventoryFailure (ℤ × List TargetResult)
with_pack b d targets (packs, err e) = (record d { packs = packs }, err (no_pack e))
with_pack b d targets (packs, ok pack) = (
  record d { packs = packs },
  if d.has_ssh then ok (pack.version, run_batch b d.scope pack targets) else err no_ssh,
)

abbrev pub with_targets :
    Batch
    → Map Param
    → Datasource
    → Result InventoryFailure (List String)
    → Datasource × Result InventoryFailure (ℤ × List TargetResult)
with_targets b params d (err e) = (d, err e)
with_targets b params d (ok targets) =
    with_pack b d targets (resolve_pack b.codecs b.files params d.packs)

-- `handleInventory`
unfoldable pub handle_inventory :
    Batch → Map Param → Datasource → Datasource × Result InventoryFailure (ℤ × List TargetResult)
unfolding run_batch
handle_inventory b params d =
    with_targets b params d
      (check_targets (map_err bad_targets (string_slice_param "targets" params)))

abbrev pub missing_if : Bool → String → List String
missing_if true what = what ∷ []
missing_if false what = []

-- `HealthCheck`: what is missing, where not even a sweep can be served.
unfoldable pub health_check : Datasource → Option (List String)
health_check d =
    let missing =
      missing_if (not d.has_ssh) "ssh credentials"
      ++ (missing_if (not (is_some d.packs.pub_key)) "pack_public_key"
          ++ missing_if (not d.packs.has_dir) "pack_dir") in
    if elim missing [ [] ↦ false | _ ∷ _ ↦ true ] && is_unrestricted d.scope
    then some missing
    else none

-- `Actions`
unfoldable pub actions : Datasource → List String
actions d =
    "discovery_sweep"
    ∷ ((if d.has_ldap then "discovery_ldap" ∷ [] else [])
        ++ (if d.has_ssh && is_some d.packs.pub_key then "discovery_inventory" ∷ [] else []))

-- `Close`
unfoldable pub close_packs : Datasource → Datasource
close_packs d = record d { packs = forget_packs d.packs }
