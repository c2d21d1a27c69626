-- ===== src/Apply/Stages.antt =====
-- The stages of netbox_sync/netbox_full_apply.py, with the two of the guests that Machines and
-- Containers model; the others are given.
use infra_sync.Prelude.{Bool, true, false, Option, List, [], ◌∷◌, Result, ok, err, All}
use infra_sync.Discovery.{Host}
use infra_sync.Config.{NetBoxTargetConfig}
use infra_sync.FullApply.{
  Action, Stages, run_stages, stage_list, precheck_phase, write_phase, apply_full_sync,
}
use infra_sync.FullApply.Laws.{Keeps, ReadOnly, and_then-keeps, precheck_phase-keeps}
use infra_sync.Apply.NetBox.{Python, Api}
use infra_sync.Apply.Machines.{ApplyError, Summary}
use infra_sync.Apply.Machines.Writes.{apply_virtual_machines}
use infra_sync.Apply.Machines.Laws as Machines
use infra_sync.Apply.Machines.Laws.{
  apply_virtual_machines-unconfirmed, apply_virtual_machines-Guarded,
}
use infra_sync.Apply.Containers.{LxcApplyError}
use infra_sync.Apply.Containers.Writes.{apply_lxc_containers}
use infra_sync.Apply.Containers.Laws as Containers
use infra_sync.Apply.Containers.Laws.{
  apply_lxc_containers-unconfirmed, apply_lxc_containers-Guarded,
}
use mathlib.Core.Path.{subst}
use infra_sync.Prelude.{sym}

-- What a stage raises.
pub data StageError (E : Type 0) : Type 0 where
  of_machines : ApplyError E → StageError E
  of_containers : LxcApplyError E → StageError E
  of_other : E → StageError E

module _ {W E : Type 0} where
  abbrev dropped :
      {X : Type 0}
      → (X → StageError E)
      → Result X (Option Summary) × W
      → Result (StageError E) (Unit {0}) × W
  dropped wrap (ok summary, w) = (ok tt, w)
  dropped wrap (err e, w) = (err (wrap e), w)

  module _ (py : Python) (api : Api W E) (hosts : List Host) (config : NetBoxTargetConfig) where
    -- `STAGES`, over the stages of the hosts and the networks.
    unfoldable pub guest_stages : Stages W (StageError E) → Stages W (StageError E)
    guest_stages others = record others {
      apply_virtual_machines = λ confirmed w.
          dropped of_machines (apply_virtual_machines py api hosts config confirmed w);
      apply_lxc_containers = λ confirmed w.
          dropped of_containers (apply_lxc_containers py api hosts config confirmed w);
    }

    module _ (P : W → Type 0) where
      dropped-keeps :
          {X : Type 0} (wrap : X → StageError E) (r : Result X (Option Summary) × W)
          → P r.1
          → P (dropped wrap r).1
      dropped-keeps wrap (ok summary, w) p = p
      dropped-keeps wrap (err e, w) p = p

      -- The stages of the guests read only, unless they are confirmed.
      pub guest_stages-ReadOnly :
          (others : Stages W (StageError E)) → ReadOnly P others → ReadOnly P (guest_stages others)
      unfolding guest_stages
      guest_stages-ReadOnly others r = record {
        hosts = r.hosts;
        virtual_machines = λ w p.
            dropped-keeps of_machines _
              (subst P (sym (apply_virtual_machines-unconfirmed py api hosts config w)) p);
        vm_networks = r.vm_networks;
        lxc_containers = λ w p.
            dropped-keeps of_containers _
              (subst P (sym (apply_lxc_containers-unconfirmed py api hosts config w)) p);
        lxc_networks = r.lxc_networks;
        report = r.report;
      }

      -- A property that the other stages keep, confirmed or not, and that the writes of the guests
      -- keep which are justified by what stood in NetBox when their stage began.
      pub record StagesGuarded (others : Stages W (StageError E)) : Type 0 where
        pub host_stage : Keeps P (others.apply_hosts true)
        pub vm_networks : Keeps P (others.apply_vm_networks true)
        pub lxc_networks : Keeps P (others.apply_lxc_networks true)
        pub machines : (start : W) → Machines.Guarded py api hosts config P start
        pub containers : (start : W) → Containers.Guarded py api P start

      run_true-keeps :
          (stages : List (Bool → Action W (StageError E)))
          → All (λ stage. Keeps P (stage true)) stages
          → Keeps P (run_stages true stages)
      unfolding run_stages
      run_true-keeps [] h s p = p
      run_true-keeps (stage ∷ stages) h s p =
          and_then-keeps P (stage true s) (run_stages true stages) (h.0 s p)
            (run_true-keeps stages h.1)

      guest_stages-keeps :
          (others : Stages W (StageError E))
          → StagesGuarded others
          → Keeps P (run_stages true (stage_list (guest_stages others)))
      unfolding guest_stages
      guest_stages-keeps others g = run_true-keeps (stage_list (guest_stages others)) (
        g.host_stage,
        (
          λ w p.
              dropped-keeps of_machines _
                (apply_virtual_machines-Guarded py api hosts config P true w (g.machines w) p),
          (
            g.vm_networks,
            (
              λ w p.
                  dropped-keeps of_containers _
                    (apply_lxc_containers-Guarded py api hosts config P true w (g.containers w) p),
              (g.lxc_networks, tt),
            ),
          ),
        ),
      )

      -- Where the stages of hosts and networks, and the prechecks, keep a property of NetBox, and
      -- the writes of guests keep it which their stage justifies by what stood in NetBox when it
      -- began, a whole run keeps it, confirmed or not and whatever is raised.
      pub apply_full_sync-Guarded :
          (others : Stages W (StageError E)) (confirmed : Bool) (w : W)
          → ReadOnly P others
          → StagesGuarded others
          → P w
          → P (apply_full_sync (guest_stages others) confirmed w).1
      unfolding apply_full_sync write_phase
      apply_full_sync-Guarded others confirmed w r g p =
          and_then-keeps P (precheck_phase (guest_stages others) w)
            (write_phase (guest_stages others) confirmed)
            (precheck_phase-keeps P (guest_stages others) (guest_stages-ReadOnly others r) w p)
            (written confirmed)
        where
          written : (confirmed : Bool) → Keeps P (write_phase (guest_stages others) confirmed)
          written true w' q = guest_stages-keeps others g w' q
          written false w' q = q
