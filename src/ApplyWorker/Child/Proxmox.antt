-- ===== src/ApplyWorker/Child/Proxmox.antt =====
-- `execute_child` for a Proxmox source, whose writer is `apply_full_sync` with the modelled stages.
use infra_sync.Prelude.{String, ◌≡◌, false, Option, List, ◌==◌, Result, ok, err}
use infra_sync.Discovery.{Host}
use infra_sync.Config.{NetBoxTargetConfig}
use infra_sync.FullApply.{Stages, apply_full_sync}
use infra_sync.FullApply.Laws.{ReadOnly, apply_full_sync-unconfirmed}
use infra_sync.Apply.NetBox.{Python, Api}
use infra_sync.Apply.Stages.{StageError, guest_stages, guest_stages-ReadOnly}
use infra_sync.ApplyWorker.{Problem, unexpected}
use infra_sync.ApplyWorker.Child.{RuntimePlan, Provider, execute_child}
use infra_sync.ApplyWorker.Child.Laws.{Quiet, IsSafe, execute_child-IsSafe}

module _ {W E : Type 0} (py : Python) (api : Api W E) (config : NetBoxTargetConfig)
    (others : List Host → Stages W (StageError E)) (discover : W → Result Problem (List Host) × W)
    (build_plan : List Host → W → Result Problem RuntimePlan × W) where
  -- Whatever a stage raises, `execute_child` reads no code of it.
  abbrev unread : Result (StageError E) (Unit {0}) × W → Result Problem (Unit {0}) × W
  unread (ok u, w) = (ok u, w)
  unread (err e, w) = (err unexpected, w)

  unfoldable pub proxmox_provider : Provider W (List Host)
  proxmox_provider = record {
    discover = discover;
    build_plan = build_plan;
    sync = λ confirmed hosts w.
        unread (apply_full_sync (guest_stages py api hosts config (others hosts)) confirmed w);
  }

  -- A property that the discovery, the planner and the prechecks of the other stages keep.
  pub record OthersQuiet (P : W → Type 0) : Type 0 where
    pub discovers : (w : W) → P w → P (discover w).1
    pub plans : (hosts : List Host) (w : W) → P w → P (build_plan hosts w).1
    pub stages : (hosts : List Host) → ReadOnly P (others hosts)

  unread-keeps :
      (P : W → Type 0) (r : Result (StageError E) (Unit {0}) × W) → P r.1 → P (unread r).1
  unread-keeps P (ok u, w) p = p
  unread-keeps P (err e, w) p = p

  proxmox_provider-Quiet : (P : W → Type 0) → OthersQuiet P → Quiet proxmox_provider P
  unfolding proxmox_provider
  proxmox_provider-Quiet P q = record {
    discovers = q.discovers;
    plans = q.plans;
    prechecks = λ hosts w p. unread-keeps P _ (
        apply_full_sync-unconfirmed P (guest_stages py api hosts config (others hosts)) w
          (guest_stages-ReadOnly py api hosts config P (others hosts) (q.stages hosts)) p);
  }

  -- A child for the apply of a Proxmox source, with the modelled stages of the guests, keeps every
  -- property of NetBox that the discovery, the planner and the prechecks of the other stages keep,
  -- unless it succeeds or reports OUTCOME_UNCERTAIN, and it succeeds only with an allowed plan of
  -- the digest that was expected.
  pub execute_child-proxmox_provider :
      (P : W → Type 0) (operation : String) (expected : Option String) (w : W)
      → (operation == "plan") ≡ false
      → OthersQuiet P
      → P w
      → IsSafe proxmox_provider P expected (execute_child proxmox_provider operation expected w)
  execute_child-proxmox_provider P operation expected w writing q p =
      execute_child-IsSafe proxmox_provider P operation expected w writing
        (proxmox_provider-Quiet P q) p
