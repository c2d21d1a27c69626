-- ===== src/FullApply/Laws.antt =====
-- No stage writes before every stage was checked.
use infra_sync.Prelude.{
  ◌≡◌, Bool, false, List, [], ◌∷◌, ◌++◌, map, ◌⊎◌, inl, inr, Result, ok, err, All,
}
use infra_sync.FullApply.{
  Action, Stages, and_then, run_stages, stage_list, precheck_phase, write_phase, apply_full_sync,
}

module _ {S E : Type 0} where
  -- One of some actions in a row raises, and those before it return.
  unfoldable pub Raises : List (Action S E) → S → E → Type 0
  Raises [] s e = ⊥
  Raises (m ∷ ms) s e = ((m s).0 ≡ err e) ⊎ (((m s).0 ≡ ok tt) × Raises ms (m s).1 e)

  -- What has to return before the first write.
  abbrev pub checks_of : Stages S E → List (Action S E)
  checks_of st =
      st.apply_hosts false
      ∷ st.apply_virtual_machines false
      ∷ st.apply_vm_networks false
      ∷ st.apply_lxc_containers false
      ∷ st.apply_lxc_networks false
      ∷ st.report_missing_managed_objects
      ∷ []

  -- The stages in a row, and then an action.
  run_stages-Raises :
      (stages : List (Bool → Action S E)) (last : Action S E) (s : S) (e : E)
      → Raises (map (λ stage. stage false) stages ++ (last ∷ [])) s e
      → (and_then (run_stages false stages s) last).0 ≡ err e
  unfolding run_stages Raises
  run_stages-Raises [] last s e (inl h) = h
  run_stages-Raises [] last s e (inr (h, k)) = absurd k
  run_stages-Raises (stage ∷ stages) last s e h =
      go (λ s'. run_stages-Raises stages last s' e) (stage false s) h
    where
      go :
          ((s' : S)
            → Raises (map (λ stage. stage false) stages ++ (last ∷ [])) s' e
            → (and_then (run_stages false stages s') last).0 ≡ err e)
          → (r : Result E (Unit {0}) × S)
          → (r.0 ≡ err e)
            ⊎ ((r.0 ≡ ok tt) × Raises (map (λ stage. stage false) stages ++ (last ∷ [])) r.1 e)
          → (and_then (and_then r (run_stages false stages)) last).0 ≡ err e
      go ih (ok u, s') (inl k) = absurd (cc k)
      go ih (ok u, s') (inr (k, later)) = ih s' later
      go ih (err x, s') (inl k) = k
      go ih (err x, s') (inr (k, later)) = absurd (cc k)

module _ {S E : Type 0} (P : S → Type 0) where
  -- An action keeps a property, whether it returns or raises.
  abbrev pub Keeps : Action S E → Type 0
  Keeps m = (s : S) → P s → P (m s).1

  -- What is read-only does not break `P`: the prechecks of the stages, and the report.
  pub record ReadOnly (st : Stages S E) : Type 0 where
    pub hosts : Keeps (st.apply_hosts false)
    pub virtual_machines : Keeps (st.apply_virtual_machines false)
    pub vm_networks : Keeps (st.apply_vm_networks false)
    pub lxc_containers : Keeps (st.apply_lxc_containers false)
    pub lxc_networks : Keeps (st.apply_lxc_networks false)
    pub report : Keeps st.report_missing_managed_objects

  pub and_then-keeps :
      (r : Result E (Unit {0}) × S) (next : Action S E) → P r.1 → Keeps next → P (and_then r next).1
  and_then-keeps (ok u, s) next p k = k s p
  and_then-keeps (err e, s) next p k = p

  run_stages-keeps :
      (stages : List (Bool → Action S E))
      → All (λ stage. Keeps (stage false)) stages
      → Keeps (run_stages false stages)
  unfolding run_stages
  run_stages-keeps [] h s p = p
  run_stages-keeps (stage ∷ stages) h s p =
      and_then-keeps (stage false s) (run_stages false stages) (h.0 s p)
        (run_stages-keeps stages h.1)

  pub precheck_phase-keeps : (st : Stages S E) → ReadOnly st → Keeps (precheck_phase st)
  unfolding precheck_phase
  precheck_phase-keeps st r s p =
      and_then-keeps (run_stages false (stage_list st) s) st.report_missing_managed_objects
        (run_stages-keeps (stage_list st)
          (r.hosts, (r.virtual_machines, (r.vm_networks, (r.lxc_containers, (r.lxc_networks, tt)))))
          s p)
        r.report

  -- A run that is not confirmed keeps whatever the prechecks and the report keep: NetBox itself, if
  -- they do not write.
  pub apply_full_sync-unconfirmed :
      (st : Stages S E) (s : S) → ReadOnly st → P s → P (apply_full_sync st false s).1
  unfolding apply_full_sync write_phase
  apply_full_sync-unconfirmed st s r p =
      and_then-keeps (precheck_phase st s) (write_phase st false) (precheck_phase-keeps st r s p)
        (λ s' q. q)

  -- Where the prechecks and the report keep a property of NetBox, and one of them raises after
  -- those before it returned, in the order hosts, virtual machines, their networks, containers,
  -- their networks and the report, a run, confirmed or not, keeps the property too and passes the
  -- exception on: no stage writes unless all five prechecks and the report returned.
  pub apply_full_sync-blocked :
      (st : Stages S E) (confirmed : Bool) (s : S) (e : E)
      → ReadOnly st
      → Raises (checks_of st) s e
      → P s
      → ((apply_full_sync st confirmed s).0 ≡ err e) × P (apply_full_sync st confirmed s).1
  unfolding apply_full_sync precheck_phase
  apply_full_sync-blocked st confirmed s e r h p =
      stop (precheck_phase st s)
        (run_stages-Raises (stage_list st) st.report_missing_managed_objects s e h)
        (precheck_phase-keeps st r s p)
    where
      stop :
          (x : Result E (Unit {0}) × S)
          → x.0 ≡ err e
          → P x.1
          → ((and_then x (write_phase st confirmed)).0 ≡ err e)
            × P (and_then x (write_phase st confirmed)).1
      stop (ok u, s') k q = absurd (cc k)
      stop (err e', s') k q = (k, q)
