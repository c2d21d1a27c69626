-- ===== src/Apply/Containers/Justified.antt =====
-- Why the preflight of a container lets it be written.
use mathlib.Core.Path.{subst}
use infra_sync.Prelude.{
  ℕ, suc, String, ◌≡◌, refl, ap, true, Option, none, some, List, [], ◌∷◌, ok, >>=-eq-ok,
  Result-cases, Bool-cases, inl, inr, ok_eq, All, length, mem_text,
}
use infra_sync.Json.{end}
use infra_sync.Discovery.{Container}
use infra_sync.Metadata.Containers.{find_lxc_sync_identity_matches}
use infra_sync.Apply.NetBox.{Machine, Python}
use infra_sync.Apply.Containers.{
  LxcContext, is_in, adoption_candidates, desired_fields, new_context, known_context,
  unless_candidate, by_identity, preflight_container, preflight_containers,
}

module _ (py : Python) where
  -- Why an object may be written, for the existing one that was found or none.
  abbrev pub IsJustifiedFor : List Machine → ℕ → Container → Option Machine → Type 0
  IsJustifiedFor all_machines cluster container none =
      (find_lxc_sync_identity_matches py.print (λ (m : Machine). m.custom_fields) all_machines
          container
        ≡ ok [])
      × (adoption_candidates py all_machines cluster container ≡ [])
  IsJustifiedFor all_machines cluster container (some existing) =
      (find_lxc_sync_identity_matches py.print (λ (m : Machine). m.custom_fields) all_machines
          container
        ≡ ok (existing ∷ []))
      × (is_in cluster existing ≡ true)

  abbrev pub IsJustified : List Machine → ℕ → LxcContext → Type 0
  IsJustified all_machines cluster c = IsJustifiedFor all_machines cluster c.container c.existing

  module _ {E : Type 0} (all_machines : List Machine) (cluster : ℕ) where
    module _ (container : Container) (c : LxcContext) where
      unless_candidate-IsJustified :
          (ms : List Machine)
          → adoption_candidates py all_machines cluster container ≡ ms
          → find_lxc_sync_identity_matches py.print
              (λ (m : Machine). m.custom_fields)
              all_machines
              container
            ≡ ok []
          → unless_candidate py {E = E} all_machines cluster container ms ≡ ok c
          → IsJustified all_machines cluster c
      unfolding new_context
      unless_candidate-IsJustified [] names found h =
          let (desired, _, done) =
            >>=-eq-ok (desired_fields py {E = E} container cluster end) _ h in
          subst (IsJustified all_machines cluster) (ok_eq done) (found, names)
      unless_candidate-IsJustified (m ∷ ms) names found h = absurd (cc h)

      by_identity-IsJustified :
          (ms : List Machine)
          → find_lxc_sync_identity_matches py.print
              (λ (m : Machine). m.custom_fields)
              all_machines
              container
            ≡ ok ms
          → by_identity py {E = E} all_machines cluster container ms ≡ ok c
          → IsJustified all_machines cluster c
      unfolding known_context
      by_identity-IsJustified [] found h = unless_candidate-IsJustified _ refl found h
      by_identity-IsJustified (existing ∷ []) found h = elim (Bool-cases (is_in cluster existing)) [
        | inl inside ↦
            let (desired, _, done) =
              >>=-eq-ok (desired_fields py {E = E} container cluster existing.custom_fields) _
                (rw inside at h) in
            subst (IsJustified all_machines cluster) (ok_eq done) (found, inside)
        | inr outside ↦ absurd (cc (rw outside at h))
      ]
      by_identity-IsJustified (m ∷ n ∷ ms) found h = absurd (cc h)

      preflight_container-IsJustified :
          preflight_container py {E = E} all_machines cluster container ≡ ok c
          → IsJustified all_machines cluster c
      unfolding preflight_container
      preflight_container-IsJustified h =
          elim (Result-cases (
            find_lxc_sync_identity_matches py.print (λ (m : Machine). m.custom_fields) all_machines
              container)) [
                | inl (ms, found) ↦ by_identity-IsJustified ms found (rw found at h)
                | inr (e, failed) ↦ absurd (cc (rw failed at h))
              ]

    -- A precheck that returns has a context for each container, and a reason for each.
    pub preflight_containers_lem :
        (seen : List String) (containers : List Container) (cs : List LxcContext)
        → preflight_containers py {E = E} all_machines cluster seen containers ≡ ok cs
        → All (IsJustified all_machines cluster) cs × (length cs ≡ length containers)
    unfolding preflight_containers
    preflight_containers_lem seen [] cs h =
        subst (λ cs. All (IsJustified all_machines cluster) cs × (length cs ≡ 0)) (ok_eq h)
          (tt, refl)
    preflight_containers_lem seen (container ∷ containers) cs h =
        elim (Bool-cases (mem_text container.source_id seen)) [
          | inl again ↦ absurd (cc (rw again at h))
          | inr new ↦
              let (c, one, more) =
                >>=-eq-ok (preflight_container py all_machines cluster container) _ (rw new at h) in
              let (rest, others, done) =
                >>=-eq-ok
                  (preflight_containers py all_machines cluster (container.source_id ∷ seen)
                    containers)
                  _ more in
              let (reasons, count) =
                preflight_containers_lem (container.source_id ∷ seen) containers rest others in
              subst
                (λ cs.
                  All (IsJustified all_machines cluster) cs × (length cs ≡ suc (length containers)))
                (ok_eq done)
                ((preflight_container-IsJustified container c one, reasons), ap suc count)
        ]
