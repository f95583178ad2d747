-- ===== src/Discovery/Inventory/Results.antt =====
-- pkg/proxy/discovery/proxy.go: the results of a batch.
use mathlib.Core.Path.{subst}
use forager.Prelude.{
  ℕ, ◌+◌, ◌≡◌, refl, sym, ap, ◌∙◌, ◌⊎◌, inl, inr, Bool-cases, true, String, List, [], ◌∷◌, ◌++◌,
  map, some, arith, ◌==◌, string_eq, if◌then◌else◌, Map, Result, ok, err, All, All-append,
}
use forager.Prelude.Int.{ℤ, pos}
use forager.Prelude.Bytes.{Bytes}
use forager.Discovery.Params.{Param, ParamError, int_param, string_slice_param}
use forager.Discovery.Pack.{Pack}
use forager.Discovery.Pack.Valid.{IsValid, parse_and_verify-IsAccepted}
use forager.Discovery.Executor.{TargetResult, failed}
use forager.Discovery.Executor.Commands.{IsCommand, inventory_host_lem, inventory_host-host}
use forager.Discovery.Proxy.{Scope, is_target_allowed, Packs, ResolveFailure, resolve_pack, map_err}
use forager.Discovery.Proxy.Trusted.{IsVerified, IsTrusted, resolve_pack-IsTrusted}
use forager.Discovery.Inventory.{
  Datasource, Batch, InventoryFailure, is_in_scope, partition_targets, run_target, run_inventory,
  run_batch, handle_inventory, check_targets, bad_targets, with_pack, with_targets,
}

-- A result of a host in scope, on which nothing ran but the probe and wanted commands of the pack;
-- or one that says why nothing was run on it.
abbrev pub IsReported : Batch → Scope → Pack → TargetResult → Type 0
IsReported b s p r =
    ((is_target_allowed b.net s r.host ≡ true) × All (IsCommand (b.hosts r.host) p) r.commands)
    ⊎ ((r.commands ≡ []) × (r.status ≡ failed))

-- How often a target stands in a list.
abbrev pub times : String → List String → ℕ
times t [] = 0
times t (u ∷ us) = (if u == t then 1 else 0) + times t us

abbrev pub hosts_of : List TargetResult → List String
hosts_of = map (λ (r : TargetResult). r.host)

times-hosts_append :
    (t : String) (xs ys : List TargetResult)
    → times t (hosts_of (xs ++ ys)) ≡ times t (hosts_of xs) + times t (hosts_of ys)
times-hosts_append t [] ys = omega arith
times-hosts_append t (x ∷ xs) ys = omega (arith, times-hosts_append t xs ys)

module _ (b : Batch) (s : Scope) where
  partition_lem :
      (p : Pack) (ts : List String)
      → ((t : String)
          → times t (partition_targets b s ts).0 + times t (hosts_of (partition_targets b s ts).1)
            ≡ times t ts)
        × All (λ (t : String). is_target_allowed b.net s t ≡ true) (partition_targets b s ts).0
        × All (IsReported b s p) (partition_targets b s ts).1
  unfolding partition_targets
  partition_lem p [] = (λ t. refl, tt, tt)
  partition_lem p (u ∷ us) =
      let (count, allowed, rejected) = partition_lem p us in
      elim (Bool-cases (is_in_scope b s u)) [
        | inl inside ↦ rw inside (λ t. omega (arith, count t), (ground arith, allowed), rejected)
        | inr outside ↦
            rw outside (λ t. omega (arith, count t), allowed, (inr (refl, refl), rejected))
      ]

  run_target_lem :
      (p : Pack) (t : String)
      → IsValid p
      → ((run_target b p t).host ≡ t) × All (IsCommand (b.hosts t) p) (run_target b p t).commands
  run_target_lem p t v = elim (Bool-cases (b.started t)) [
    | inl started ↦
        rw started (inventory_host-host (b.hosts t) t p, inventory_host_lem (b.hosts t) t p v)
    | inr cancelled ↦ rw cancelled (refl, tt)
  ]

  run_inventory_lem :
      (p : Pack) (ts : List String)
      → IsValid p
      → All (λ (t : String). is_target_allowed b.net s t ≡ true) ts
      → (hosts_of (run_inventory b p ts) ≡ ts) × All (IsReported b s p) (run_inventory b p ts)
  unfolding run_inventory
  run_inventory_lem p [] v h = (refl, tt)
  run_inventory_lem p (t ∷ ts) v (h, hs) =
      let (same, reported) = run_inventory_lem p ts v hs in
      let (host, commands) = run_target_lem p t v in
      (
        rw (host, same) refl,
        (
          inl (
            rw host h,
            subst (λ u. All (IsCommand (b.hosts u) p) (run_target b p t).commands) (sym host)
                commands,
          ),
          reported,
        ),
      )

  run_batch_lem :
      (p : Pack) (targets : List String)
      → IsValid p
      → ((t : String) → times t (hosts_of (run_batch b s p targets)) ≡ times t targets)
        × All (IsReported b s p) (run_batch b s p targets)
  unfolding run_batch
  run_batch_lem p targets v =
      let (parts, allowed, rejected) = partition_lem p targets in
      let inside = (partition_targets b s targets).0 in
      let outside = (partition_targets b s targets).1 in
      let (same, reported) = run_inventory_lem p inside v allowed in
      (
        λ t.
            times-hosts_append t (run_inventory b p inside) outside
            ∙ ap (λ hs. times t hs + times t (hosts_of outside)) same
            ∙ parts t,
        All-append (IsReported b s p) (run_inventory b p inside) outside reported rejected,
      )

checked :
    (r : Result ParamError (List String)) (ts : List String)
    → check_targets (map_err bad_targets r) ≡ ok ts
    → r ≡ ok ts
checked (err e) ts h = ground arith
checked (ok []) ts h = ground arith
checked (ok (u ∷ us)) ts h = ground arith

AnswersBatch : Batch → Datasource → List String → Pack → ℤ × List TargetResult → Type 0
AnswersBatch b d targets p answer = answer ≡ (p.version, run_batch b d.scope p targets)

with_pack_lem :
    (b : Batch) (d : Datasource) (targets : List String) (packs : Packs)
    (r : Result ResolveFailure Pack) (answer : ℤ × List TargetResult)
    → (with_pack b d targets (packs, r)).1 ≡ ok answer
    → (p : Pack) × (r ≡ ok p) × AnswersBatch b d targets p answer
unfolding AnswersBatch
with_pack_lem b d targets packs (err e) answer h = ground arith
with_pack_lem b d targets packs (ok p) answer h = elim (Bool-cases d.has_ssh) [
  | inl ssh ↦ (p, refl, ground arith)
  | inr without ↦ ground arith
]

with_targets_lem :
    (b : Batch) (params : Map Param) (d : Datasource) (r : Result InventoryFailure (List String))
    (answer : ℤ × List TargetResult)
    → (with_targets b params d r).1 ≡ ok answer
    → (targets : List String) × (p : Pack) × (r ≡ ok targets)
      × ((resolve_pack b.codecs b.files params d.packs).1 ≡ ok p)
      × AnswersBatch b d targets p answer
with_targets_lem b params d (err e) answer h = ground arith
with_targets_lem b params d (ok targets) answer h =
    let resolved = resolve_pack b.codecs b.files params d.packs in
    let (p, found, answers) = with_pack_lem b d targets resolved.0 resolved.1 answer h in
    (targets, p, refl, found, answers)

-- For a datasource whose cache holds only packs verified with its keys: a batch that is answered used
-- a pack which was verified with one of these keys and has the version that the request names, which
-- is the one answered. Each target of the request has as many results as it stands in the request,
-- and there are no others. A result either is of a target in the scope, on which nothing ran but the
-- probe of the facts and commands of that pack with no guard or one that matches the probed facts; or
-- is an error of a target on which no command ran.
pub handle_inventory_lem :
    (b : Batch) (keys : List Bytes) (params : Map Param) (d : Datasource) (version : ℤ)
    (results : List TargetResult)
    → IsTrusted b.codecs keys d.packs
    → (handle_inventory b params d).1 ≡ ok (version, results)
    → (targets : List String) × (n : ℕ) × (p : Pack) × (string_slice_param "targets" params
        ≡ ok targets)
      × (version ≡ pos n)
      × (int_param "content_pack_version" params ≡ some (pos n))
      × IsVerified b.codecs keys n p
      × ((t : String) → times t (hosts_of results) ≡ times t targets)
      × All (IsReported b d.scope p) results
unfolding handle_inventory AnswersBatch
handle_inventory_lem b keys params d version results trusted h =
    let (targets, p, asked, found, answers) =
      with_targets_lem b params d
        (check_targets (map_err bad_targets (string_slice_param "targets" params)))
        (version, results) h in
    let (n, named, verified) =
      (resolve_pack-IsTrusted b.codecs keys b.files params d.packs trusted).1 p found in
    let valid =
      (parse_and_verify-IsAccepted b.codecs verified.raw verified.key p verified.verified).valid in
    let (counts, reported) = run_batch_lem b d.scope p targets valid in
    let same : run_batch b d.scope p targets ≡ results = ground arith in
    (
      targets,
      n,
      p,
      checked (string_slice_param "targets" params) targets asked,
      ground (arith, verified.versioned),
      named,
      verified,
      λ t. ap (λ rs. times t (hosts_of rs)) (sym same) ∙ counts t,
      subst (All (IsReported b d.scope p)) same reported,
    )
