-- ===== src/Apply/Machines/Laws.antt =====
-- What `apply_virtual_machines` writes, and when it raises.
use mathlib.Core.Path.{subst}
use infra_sync.Prelude.{
  ℕ, String, ◌≡◌, refl, Bool, true, false, not, List, [], ◌∷◌, arith, map, Result, ok, err,
  >>=-eq-ok, ok_eq, any, All, require,
}
use infra_sync.Json.{Json, Fields}
use infra_sync.Discovery.{VirtualMachine, Host}
use infra_sync.Config.{NetBoxTargetConfig}
use infra_sync.Apply.NetBox.{Machine, Python, Api}
use infra_sync.Apply.Machines.{
  ApplyError, missing_site, missing_cluster_type, duplicate_identities, duplicate_names,
  precheck_failed, Context, Action, blocked, create, matched, Summary, no_writes, machine_identity,
  create_fields,
}
use infra_sync.Apply.Machines.Preflight.{preflight_all, is_blocked}
use infra_sync.Apply.Machines.Writes.{
  resolved, resolve_cluster, precheck, check_statuses, write_context, write_all, create_written,
  update_written, continue_with, confirmed_only, apply_virtual_machines, discovered, has_duplicates,
}
use infra_sync.Apply.Machines.Justified.{IsJustified, IsJustifiedAs, preflight_all-IsJustified}

module _ (py : Python) {W E : Type 0} (api : Api W E) (hosts : List Host)
    (config : NetBoxTargetConfig) where
  -- A dry run changes nothing, whatever the checks find.
  pub apply_virtual_machines-unconfirmed :
      (w : W) → (apply_virtual_machines py api hosts config false w).1 ≡ w
  unfolding apply_virtual_machines
  apply_virtual_machines-unconfirmed w = unwritten (precheck py api hosts config w)
    where
      unwritten :
          (r : Result (ApplyError E) (ℕ × List Context)) → (confirmed_only py api false r w).1 ≡ w
      unwritten (ok checked) = refl
      unwritten (err e) = refl

  -- What a precheck that returns has found.
  pub record IsChecked (w : W) (cluster : ℕ) (contexts : List Context) : Type 0 where
    pub justified :
        All (IsJustified py (api.all_machines w) (api.machines_in cluster w) cluster) contexts
    pub readable : check_statuses py {E = E} contexts ≡ ok tt
    pub open_only : any (is_blocked py) contexts ≡ false
    pub whole :
        preflight_all py {E = E}
          (api.all_machines w)
          (api.machines_in cluster w)
          cluster
          (py.sort_machines (discovered py hosts))
        ≡ ok contexts

  pub precheck-IsChecked :
      (w : W) (cluster : ℕ) (contexts : List Context)
      → precheck py api hosts config w ≡ ok (cluster, contexts)
      → IsChecked w cluster contexts
  unfolding precheck
  precheck-IsChecked w cluster contexts h =
      let (site, _, h1) = >>=-eq-ok (resolved py missing_site (api.site config.site_slug w)) _ h in
      let (cluster_type, _, h2) =
        >>=-eq-ok (resolved py missing_cluster_type (api.cluster_type config.cluster_type_slug w)) _
          h1 in
      let (found, _, h3) =
        >>=-eq-ok (resolve_cluster py site cluster_type (api.clusters config.cluster_name w)) _
          h2 in
      let (_, _, h4) =
        >>=-eq-ok
          (require (not (has_duplicates py (map (machine_identity py) (discovered py hosts))))
            duplicate_identities)
          _ h3 in
      let (_, _, h5) =
        >>=-eq-ok
          (require
            (not (
              has_duplicates py (
                map (λ (vm : VirtualMachine). py.casefold vm.original_name) (discovered py hosts))))
            duplicate_names)
          _ h4 in
      let (cs, whole, h6) =
        >>=-eq-ok
          (preflight_all py (api.all_machines w) (api.machines_in found.id w) found.id
            (py.sort_machines (discovered py hosts)))
          _ h5 in
      let (_, readable, h7) = >>=-eq-ok (check_statuses py cs) _ h6 in
      let (_, open_only, done) =
        >>=-eq-ok (require (not (any (is_blocked py) cs)) precheck_failed) _ h7 in
      subst (λ (p : ℕ × List Context). IsChecked w p.0 p.1) (ok_eq done)
        (record {
          justified =
              preflight_all-IsJustified py (api.all_machines w) (api.machines_in found.id w)
                found.id _ cs whole;
          readable = readable;
          open_only = ground arith;
          whole = whole;
        })

  -- A property that a write with a good reason, drawn from what stood in NetBox at the start, keeps.
  pub record Guarded (P : W → Type 0) (start : W) : Type 0 where
    pub creates :
        (cluster : ℕ) (vm : VirtualMachine) (desired : Fields) (items : List (String × Json))
        (w : W)
        → IsJustifiedAs py
            (api.all_machines start)
            (api.machines_in cluster start)
            cluster
            vm
            (create desired)
        → create_fields py {E = E} vm cluster desired ≡ ok items
        → P w
        → P (api.create items w).1
    pub updates :
        (cluster : ℕ) (vm : VirtualMachine) (existing : Machine) (changes : List (String × Json))
        (w : W)
        → IsJustifiedAs py
            (api.all_machines start)
            (api.machines_in cluster start)
            cluster
            vm
            (matched existing changes)
        → P w
        → P (api.update existing.id changes w).1

  module _ (P : W → Type 0) (start : W) (g : Guarded P start) (cluster : ℕ) where
    abbrev IsReasoned : VirtualMachine → Action → Type 0
    IsReasoned = IsJustifiedAs py (api.all_machines start) (api.machines_in cluster start) cluster

    create_written-keeps :
        (vm : VirtualMachine) (desired : Fields) (r : Result (ApplyError E) (List (String × Json)))
        (s : Summary) (w : W)
        → create_fields py vm cluster desired ≡ r
        → IsReasoned vm (create desired)
        → P w
        → P (create_written py api r s w).1
    create_written-keeps vm desired (ok items) s w e j p =
        g.creates cluster vm desired items w j e p
    create_written-keeps vm desired (err x) s w e j p = p

    update_written-keeps :
        (vm : VirtualMachine) (existing : Machine) (changes : List (String × Json)) (s : Summary)
        (w : W)
        → IsReasoned vm (matched existing changes)
        → P w
        → P (update_written py api existing changes s w).1
    update_written-keeps vm existing [] s w j p = p
    update_written-keeps vm existing (c ∷ changes) s w j p =
        g.updates cluster vm existing (c ∷ changes) w j p

    write_context-keeps :
        (vm : VirtualMachine) (a : Action) (s : Summary) (w : W)
        → IsReasoned vm a
        → P w
        → P (write_context py api cluster (record { vm = vm; action = a }) s w).1
    unfolding write_context
    write_context-keeps vm (blocked reason candidates) s w j p = p
    write_context-keeps vm (create desired) s w j p = create_written-keeps vm desired _ s w refl j p
    write_context-keeps vm (matched existing changes) s w j p =
        update_written-keeps vm existing changes s w j p

    write_all-keeps :
        (cs : List Context) (s : Summary) (w : W)
        → All (IsJustified py (api.all_machines start) (api.machines_in cluster start) cluster) cs
        → P w
        → P (write_all py api cluster cs s w).1
    unfolding write_all
    write_all-keeps [] s w j p = p
    write_all-keeps (c ∷ cs) s w j p =
        after (write_context py api cluster c s w) (write_context-keeps c.vm c.action s w j.0 p)
          (λ s' w' p'. write_all-keeps cs s' w' j.1 p')
      where
        after :
            (r : Result (ApplyError E) Summary × W)
            → P r.1
            → ((s' : Summary) (w' : W) → P w' → P (write_all py api cluster cs s' w').1)
            → P (continue_with py api r (write_all py api cluster cs)).1
        after (ok s', w') p' next = next s' w' p'
        after (err e, w') p' next = p'

  -- A virtual machine is created only if no object of NetBox has its identity and no object of the
  -- cluster without a tenant has its name, and updated only if just one object has its identity,
  -- which is in the cluster, and no other object of its tenant has its name: a property that such
  -- writes keep is kept by every call, confirmed or not, however it ends.
  pub apply_virtual_machines-Guarded :
      (P : W → Type 0) (confirmed : Bool) (w : W)
      → Guarded P w
      → P w
      → P (apply_virtual_machines py api hosts config confirmed w).1
  unfolding apply_virtual_machines
  apply_virtual_machines-Guarded P confirmed w g p =
      go confirmed (precheck py api hosts config w) refl
    where
      go :
          (confirmed : Bool) (r : Result (ApplyError E) (ℕ × List Context))
          → precheck py api hosts config w ≡ r
          → P (confirmed_only py api confirmed r w).1
      go confirmed (err e) h = p
      go false (ok checked) h = p
      go true (ok (cluster, contexts)) h =
          write_all-keeps P w g cluster contexts no_writes w
            (precheck-IsChecked w cluster contexts h).justified p
