-- ===== src/Discovery/Executor/Commands.antt =====
-- pkg/proxy/discovery/executor.go: what is run on a host.
use forager.Prelude.{
  ℕ, ◌+◌, ◌≡◌, ◌∙◌, refl, ◌⊎◌, inl, inr, Bool-cases, String, List, [], ◌∷◌, Option-cases, Result,
  Result-cases, ok, err, All, All-map, All-append, Listed,
}
use forager.Prelude.Bytes.{Bytes}
use forager.Discovery.Facts.{parse_facts}
use forager.Discovery.Pack.{Collector, Pack, select}
use forager.Discovery.Pack.Valid.{IsValid}
use forager.Discovery.Pack.Selected.{IsWanted, select_lem}
use forager.Discovery.Executor.{
  Host, Output, TargetResult, facts_probe, keep, send, collect, blank, inventory_host,
}

-- The probe of the facts; or, where the probe gave an output, the command of a collector of the pack
-- which has no guard or one that matches the facts in that output.
abbrev pub IsCommand : Host → Pack → Bytes → Type 0
IsCommand h pack cmd =
    (cmd ≡ facts_probe)
    ⊎ ((out : Output) × (c : Collector) × (h.run facts_probe ≡ ok out)
        × Listed c pack.collectors
        × IsWanted (parse_facts out.stdout) c
        × (c.cmd ≡ cmd))

keep-commands :
    (c : Collector) (r : Result Bytes Output) (res : TargetResult)
    → (keep c r res).commands ≡ res.commands
keep-commands c (ok out) res = refl
keep-commands c (err text) res = refl

collect_commands :
    (P : Bytes → Type 0) (h : Host) (round : ℕ) (cs : List Collector) (res : TargetResult)
    → All (λ (c : Collector). P c.cmd) cs
    → All P res.commands
    → All P (collect h round cs res).commands
unfolding collect
collect_commands P h round [] res cs_ok res_ok = res_ok
collect_commands P h round (c ∷ cs) res (c_ok, cs_ok) res_ok = elim (Bool-cases (h.is_over round)) [
  | inl over ↦ rw over res_ok
  | inr more ↦
      let res' = keep c (h.run c.cmd) (send c.cmd res) in
      rw more (
        collect_commands P h (round + 1) cs res' cs_ok (
          rw (keep-commands c (h.run c.cmd) (send c.cmd res))
            (All-append P res.commands (c.cmd ∷ []) res_ok (c_ok, tt))))
]

pub inventory_host_lem :
    (h : Host) (host : String) (pack : Pack)
    → IsValid pack
    → All (IsCommand h pack) (inventory_host h host pack).commands
unfolding inventory_host select
inventory_host_lem h host pack v = elim (Option-cases h.dial_error) [
  | inr (text, refused) ↦ rw refused tt
  | inl dialled ↦ elim (Result-cases (h.run facts_probe)) [
    | inr (text, broke) ↦ rw (dialled, broke) (inl refl, tt)
    | inl (out, ran) ↦
        let facts = parse_facts out.stdout in
        let run = (select pack facts).0 in
        rw (dialled, ran)
          (collect_commands (IsCommand h pack) h 0 run
            (record (send facts_probe (blank host)) {
              facts = facts;
              skipped = (select pack facts).1;
            })
            (All-map (λ (c : Collector) both. inr (out, c, ran, both.0, both.1, refl)) run
              (select_lem pack facts v).1)
            (inl refl, tt))
  ]
]

keep-host :
    (c : Collector) (r : Result Bytes Output) (res : TargetResult) → (keep c r res).host ≡ res.host
keep-host c (ok out) res = refl
keep-host c (err text) res = refl

collect-host :
    (h : Host) (round : ℕ) (cs : List Collector) (res : TargetResult)
    → (collect h round cs res).host ≡ res.host
unfolding collect
collect-host h round [] res = refl
collect-host h round (c ∷ cs) res = elim (Bool-cases (h.is_over round)) [
  | inl over ↦ rw over refl
  | inr more ↦ rw more (
      collect-host h (round + 1) cs (keep c (h.run c.cmd) (send c.cmd res))
      ∙ keep-host c (h.run c.cmd) (send c.cmd res))
]

-- The result is about the host that was asked for.
pub inventory_host-host :
    (h : Host) (host : String) (pack : Pack) → (inventory_host h host pack).host ≡ host
unfolding inventory_host
inventory_host-host h host pack = elim (Option-cases h.dial_error) [
  | inr (text, refused) ↦ rw refused refl
  | inl dialled ↦ elim (Result-cases (h.run facts_probe)) [
    | inl (out, ran) ↦
        let facts = parse_facts out.stdout in
        rw (dialled, ran)
          (collect-host h 0 (select pack facts).0 (record (send facts_probe (blank host)) {
            facts = facts;
            skipped = (select pack facts).1;
          }))
    | inr (text, broke) ↦ rw (dialled, broke) refl
  ]
]
