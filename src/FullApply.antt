-- ===== src/FullApply.antt =====
-- netbox_sync/netbox_full_apply.py: all stages are checked before any of them writes. A stage acts
-- on a state `S` (NetBox and what stands around it) and may raise; the printed headings are left
-- out. The stages themselves are the functions of the record `Stages`.
pub mod Laws
use infra_sync.Prelude.{Bool, true, false, not, List, [], ◌∷◌, if◌then◌else◌, Result, ok, err}

module _ (S E : Type 0) where
  -- `function(nb_api, hosts, config, confirmed=...)`, with what the run fixes already given
  abbrev pub Action : Type 0
  Action = S → Result E (Unit {0}) × S

  pub record Stages : Type 0 where
    pub apply_hosts : Bool → Action
    pub apply_virtual_machines : Bool → Action
    pub apply_vm_networks : Bool → Action
    pub apply_lxc_containers : Bool → Action
    pub apply_lxc_networks : Bool → Action
    pub report_missing_managed_objects : Action

module _ {S E : Type 0} where
  abbrev pub and_then : Result E (Unit {0}) × S → Action S E → Result E (Unit {0}) × S
  and_then (ok u, s) next = next s
  and_then (err e, s) next = (err e, s)

  -- `for name, function in STAGES: _run_stage(...)`; an exception ends the loop.
  unfoldable pub run_stages : Bool → List (Bool → Action S E) → Action S E
  run_stages confirmed [] s = (ok tt, s)
  run_stages confirmed (stage ∷ stages) s =
      and_then (stage confirmed s) (run_stages confirmed stages)

  -- `STAGES`
  abbrev pub stage_list : Stages S E → List (Bool → Action S E)
  stage_list st =
      st.apply_hosts ∷ st.apply_virtual_machines ∷ st.apply_vm_networks ∷ st.apply_lxc_containers
      ∷ st.apply_lxc_networks ∷ []

  -- The read-only phase: the prechecks of all stages, then the report.
  unfoldable pub precheck_phase : Stages S E → Action S E
  unfolding run_stages
  precheck_phase st s =
      and_then (run_stages false (stage_list st) s) st.report_missing_managed_objects

  unfoldable pub write_phase : Stages S E → Bool → Action S E
  unfolding run_stages
  write_phase st confirmed s =
      if not confirmed then (ok tt, s) else run_stages true (stage_list st) s

  unfoldable pub apply_full_sync : Stages S E → Bool → Action S E
  unfolding precheck_phase write_phase
  apply_full_sync st confirmed s = and_then (precheck_phase st s) (write_phase st confirmed)
