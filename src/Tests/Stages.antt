-- ===== src/Tests/Stages.antt =====
-- Runs of the full apply and of a child, with the modelled stages of the guests.
use infra_sync.Prelude.{ℕ, String, ◌≡◌, refl, true, some, [], ◌∷◌, ok}
use infra_sync.Json.{end}
use infra_sync.FullApply.{Stages, apply_full_sync}
use infra_sync.FullApply.Laws.{ReadOnly}
use infra_sync.Apply.Stages.{StageError, guest_stages, StagesGuarded, apply_full_sync-Guarded}
use infra_sync.ApplyWorker.Child.{RuntimePlan, execute_child}
use infra_sync.ApplyWorker.Child.Laws.{IsSafe}
use infra_sync.ApplyWorker.Child.Proxmox.{
  proxmox_provider, OthersQuiet, execute_child-proxmox_provider,
}
use infra_sync.Tests.{host}
use infra_sync.Tests.Runs.{first_source}
use infra_sync.Tests.Guests.{py, api, NoUpdate, vm-Guarded, lxc-Guarded}

-- Stages of hosts and networks that find nothing to do.
abbrev idle : Stages ℕ (StageError String)
idle = record {
  apply_hosts = λ confirmed w. (ok tt, w);
  apply_virtual_machines = λ confirmed w. (ok tt, w);
  apply_vm_networks = λ confirmed w. (ok tt, w);
  apply_lxc_containers = λ confirmed w. (ok tt, w);
  apply_lxc_networks = λ confirmed w. (ok tt, w);
  report_missing_managed_objects = λ w. (ok tt, w);
}

idle-ReadOnly : ReadOnly NoUpdate idle
idle-ReadOnly = record {
  hosts = λ w p. p;
  virtual_machines = λ w p. p;
  vm_networks = λ w p. p;
  lxc_containers = λ w p. p;
  lxc_networks = λ w p. p;
  report = λ w p. p;
}

idle-StagesGuarded : StagesGuarded py api (host ∷ []) first_source.target NoUpdate idle
idle-StagesGuarded = record {
  host_stage = λ w p. p;
  vm_networks = λ w p. p;
  lxc_networks = λ w p. p;
  machines = vm-Guarded;
  containers = lxc-Guarded;
}

apply_full_sync-Guarded_example :
    (apply_full_sync (guest_stages py api (host ∷ []) first_source.target idle) true 0).1 ≡ 0
apply_full_sync-Guarded_example =
    apply_full_sync-Guarded py api (host ∷ []) first_source.target NoUpdate idle true 0
      idle-ReadOnly idle-StagesGuarded refl

abbrev plan : RuntimePlan
plan = record {
  apply_allowed = true;
  digest = "d1";
  planner_version = "1";
  canonical = end;
  actions = [];
}

others-OthersQuiet :
    OthersQuiet py api first_source.target
      (λ hosts. idle)
      (λ w. (ok (host ∷ []), w))
      (λ hosts w. (ok plan, w))
      NoUpdate
others-OthersQuiet = record {
  discovers = λ w p. p;
  plans = λ hosts w p. p;
  stages = λ hosts. idle-ReadOnly;
}

execute_child-proxmox_provider_example :
    IsSafe
      (proxmox_provider py api first_source.target
        (λ hosts. idle)
        (λ w. (ok (host ∷ []), w))
        (λ hosts w. (ok plan, w)))
      NoUpdate
      (some "d2")
      (execute_child
        (proxmox_provider py api first_source.target
          (λ hosts. idle)
          (λ w. (ok (host ∷ []), w))
          (λ hosts w. (ok plan, w)))
        "apply"
        (some "d2")
        0)
execute_child-proxmox_provider_example =
    execute_child-proxmox_provider py api first_source.target (λ hosts. idle)
      (λ w. (ok (host ∷ []), w)) (λ hosts w. (ok plan, w)) NoUpdate "apply" (some "d2") 0 refl
      others-OthersQuiet refl
