-- ===== src/Plan/Containers/Laws.antt =====
-- The counts of a plan of containers.
use infra_sync.Prelude.{◌+◌, ◌≡◌, sym, ap, ◌∙◌, List, [], ◌∷◌, arith, ok, >>=-eq-ok, ok_eq, length}
use infra_sync.Json.{Fields}
use infra_sync.Discovery.{Container, Host}
use infra_sync.Metadata.Containers.{find_lxc_sync_identity_matches, build_lxc_custom_fields}
use infra_sync.Apply.NetBox.{Machine, Python}
use infra_sync.Plan.{Counters, no_counts, counted}
use infra_sync.Plan.Machines.{read}
use infra_sync.Plan.Containers.{
  plan_status, name_candidates, show_desired, named, identified, plan_containers,
  plan_lxc_containers,
}

module _ (py : Python) where
  show_desired-eq-ok :
      (container : Container) (existing : Fields) (c d : Counters)
      → show_desired py container existing c ≡ ok d
      → c ≡ d
  unfolding show_desired
  show_desired-eq-ok container existing c d h =
      let (status, _, h1) = >>=-eq-ok (plan_status container.status) _ h in
      let (desired, _, done) =
        >>=-eq-ok (read (build_lxc_custom_fields py.print py.sort_key container existing)) _ h1 in
      ok_eq done

  counted-named :
      (container : Container) (c d : Counters) (ms : List Machine)
      → named py container c ms ≡ ok d
      → counted d ≡ counted c + 1
  unfolding show_desired
  counted-named container c d [] h =
      ap counted (sym (show_desired-eq-ok container _ _ d h)) ∙ omega arith
  counted-named container c d (m ∷ []) h =
      ap counted (sym (show_desired-eq-ok container _ _ d h)) ∙ omega arith
  counted-named container c d (m ∷ n ∷ ms) h = ap counted (sym (ok_eq h)) ∙ omega arith

  counted-identified :
      (existing : List Machine) (container : Container) (c d : Counters) (ms : List Machine)
      → identified py existing container c ms ≡ ok d
      → counted d ≡ counted c + 1
  unfolding show_desired name_candidates
  counted-identified existing container c d [] h =
      counted-named container c d (name_candidates py existing container) h
  counted-identified existing container c d (m ∷ []) h =
      ap counted (sym (show_desired-eq-ok container _ _ d h)) ∙ omega arith
  counted-identified existing container c d (m ∷ n ∷ ms) h =
      ap counted (sym (ok_eq h)) ∙ omega arith

  counted-plan_containers :
      (existing : List Machine) (c d : Counters) (containers : List Container)
      → plan_containers py existing c containers ≡ ok d
      → counted d ≡ counted c + length containers
  unfolding plan_containers
  counted-plan_containers existing c d [] h = ap counted (sym (ok_eq h)) ∙ omega arith
  counted-plan_containers existing c d (container ∷ containers) h =
      let (matches, _, h1) =
        >>=-eq-ok
          (read (
            find_lxc_sync_identity_matches py.print (λ (m : Machine). m.custom_fields) existing
              container))
          _ h in
      let (c', one, rest) = >>=-eq-ok (identified py existing container c matches) _ h1 in
      omega (
        arith,
        counted-plan_containers existing c' d containers rest,
        counted-identified existing container c c' matches one,
      )

  -- Where sorting keeps the number of containers, a plan that is made counts every container of the
  -- host once.
  pub counted-plan_lxc_containers :
      (sort_by_vmid : List Container → List Container) (host : Host) (existing : List Machine)
      (c : Counters)
      → ((cs : List Container) → length (sort_by_vmid cs) ≡ length cs)
      → plan_lxc_containers py sort_by_vmid host existing ≡ ok c
      → counted c ≡ length host.containers
  unfolding plan_lxc_containers
  counted-plan_lxc_containers sort_by_vmid host existing c sorts h =
      omega (arith, counted-plan_containers existing no_counts c _ h, sorts host.containers)
