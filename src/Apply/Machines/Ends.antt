-- ===== src/Apply/Machines/Ends.antt =====
-- How a call of `apply_virtual_machines` ends.
use infra_sync.Prelude.{
  ℕ, ◌+◌, suc, String, ◌≡◌, ◌⊎◌, refl, sym, ap, ◌∙◌, Bool, true, false, Option, none, some, List,
  [], ◌∷◌, arith, Result, ok, err, >>=-eq-ok, inl, inr, ok_eq, any, length,
}
use infra_sync.Json.{Json, Fields}
use infra_sync.Discovery.{VirtualMachine, Host}
use infra_sync.Config.{NetBoxTargetConfig}
use infra_sync.Apply.NetBox.{Machine, Python, Api}
use infra_sync.Apply.Machines.{
  ApplyError, raised, Context, Action, blocked, create, matched, Summary, no_writes, desired_status,
  create_fields,
}
use infra_sync.Apply.Machines.Preflight.{preflight_vm, preflight_all, is_blocked}
use infra_sync.Apply.Machines.Writes.{
  precheck, check_statuses, write_context, write_all, written, create_written, update_written,
  continue_with, confirmed_only, apply_virtual_machines, discovered,
}
use infra_sync.Apply.Machines.Laws.{precheck-IsChecked}
use infra_sync.Apply.Containers.Laws.{total}

module _ (py : Python) {W E : Type 0} (api : Api W E) where
  -- What a part of the writing does to the count if it returns, and how it fails.
  abbrev Counts : Summary → ℕ → Result (ApplyError E) Summary → Type 0
  Counts s n (ok s') = total s' ≡ total s + n
  Counts s n (err e) = (x : E) × (e ≡ raised x)

  created-Counts :
      (s : Summary) (r : Result E Unit)
      → Counts s 1 (written py api r (record s { created = s.created + 1 }))
  created-Counts s (ok u) = omega arith
  created-Counts s (err e) = (e, refl)

  updated-Counts :
      (s : Summary) (r : Result E Unit)
      → Counts s 1 (written py api r (record s { updated = s.updated + 1 }))
  updated-Counts s (ok u) = omega arith
  updated-Counts s (err e) = (e, refl)

  update_written-Counts :
      (existing : Machine) (changes : List (String × Json)) (s : Summary) (w : W)
      → Counts s 1 (update_written py api existing changes s w).0
  update_written-Counts existing [] s w = omega arith
  update_written-Counts existing (c ∷ changes) s w =
      updated-Counts s (api.update existing.id (c ∷ changes) w).0

  -- What is known of a context once the loop that prints it has passed and none is blocked.
  abbrev IsOpen : Context → Type 0
  IsOpen c =
      (is_blocked py c ≡ false) × ((status : String) × (desired_status py {E = E} c.vm ≡ ok status))

  create_written-Counts :
      (vm : VirtualMachine) (cluster : ℕ) (desired : Fields) (s : Summary) (w : W) (status : String)
      → desired_status py {E = E} vm ≡ ok status
      → Counts s 1 (create_written py api (create_fields py vm cluster desired) s w).0
  unfolding create_fields
  create_written-Counts vm cluster desired s w status e = rw e (created-Counts s _)

  write_context-Counts :
      (cluster : ℕ) (vm : VirtualMachine) (a : Action) (s : Summary) (w : W)
      → IsOpen (record { vm = vm; action = a })
      → Counts s 1 (write_context py api cluster (record { vm = vm; action = a }) s w).0
  unfolding write_context
  write_context-Counts cluster vm (blocked reason candidates) s w (open_only, status) =
      absurd (cc open_only)
  write_context-Counts cluster vm (create desired) s w (open_only, (status, e)) =
      create_written-Counts vm cluster desired s w status e
  write_context-Counts cluster vm (matched existing changes) s w open_only =
      update_written-Counts existing changes s w

  add-Counts :
      (n : ℕ) (s s' : Summary) (r : Result (ApplyError E) Summary)
      → total s' ≡ total s + 1
      → Counts s' n r
      → Counts s (suc n) r
  add-Counts n s s' (ok s'') one more = omega (arith, one, more)
  add-Counts n s s' (err e) one more = more

  continue_with-Counts :
      (n : ℕ) (s : Summary) (r : Result (ApplyError E) Summary × W)
      (next : Summary → W → Result (ApplyError E) Summary × W)
      → Counts s 1 r.0
      → ((s' : Summary) (w' : W) → Counts s' n (next s' w').0)
      → Counts s (suc n) (continue_with py api r next).0
  continue_with-Counts n s (ok s', w') next one more =
      add-Counts n s s' (next s' w').0 one (more s' w')
  continue_with-Counts n s (err e, w') next one more = one

  check_statuses-cons :
      (c : Context) (cs : List Context)
      → is_blocked py c ≡ false
      → check_statuses py {E = E} (c ∷ cs) ≡ ok tt
      → ((status : String) × (desired_status py {E = E} c.vm ≡ ok status))
        × (check_statuses py {E = E} cs ≡ ok tt)
  unfolding check_statuses
  check_statuses-cons c cs open_only h =
      let (status, e, rest) = >>=-eq-ok (desired_status py c.vm) _ (rw open_only at h) in
      ((status, e), rest)

  write_all-Counts :
      (cluster : ℕ) (cs : List Context) (s : Summary) (w : W)
      → any (is_blocked py) cs ≡ false
      → check_statuses py {E = E} cs ≡ ok tt
      → Counts s (length cs) (write_all py api cluster cs s w).0
  unfolding write_all
  write_all-Counts cluster [] s w b h = omega arith
  write_all-Counts cluster (c ∷ cs) s w b h =
      let open_only : is_blocked py c ≡ false = ground arith in
      let (status, rest) = check_statuses-cons c cs open_only h in
      continue_with-Counts (length cs) s (write_context py api cluster c s w)
        (write_all py api cluster cs)
        (write_context-Counts cluster c.vm c.action s w (open_only, status))
        (λ s' w'. write_all-Counts cluster cs s' w' (ground arith) rest)

  length-preflight_all :
      (all_machines target_machines : List Machine) (cluster : ℕ) (vms : List VirtualMachine)
      (cs : List Context)
      → preflight_all py {E = E} all_machines target_machines cluster vms ≡ ok cs
      → length cs ≡ length vms
  unfolding preflight_all
  length-preflight_all all_machines target_machines cluster [] cs h = ap length (sym (ok_eq h))
  length-preflight_all all_machines target_machines cluster (vm ∷ vms) cs h =
      let (c, one, more) =
        >>=-eq-ok (preflight_vm py all_machines target_machines vm cluster) _ h in
      let (rest, others, done) =
        >>=-eq-ok (preflight_all py all_machines target_machines cluster vms) _ more in
      ap length (sym (ok_eq done))
      ∙ ap suc (length-preflight_all all_machines target_machines cluster vms rest others)

  module _ (hosts : List Host) (config : NetBoxTargetConfig) where
    -- How a call ends.
    abbrev pub IsEnded : W → Result (ApplyError E) (Option Summary) × W → Type 0
    IsEnded w (ok none, w') = w' ≡ w
    IsEnded w (ok (some s), w') = total s ≡ length (discovered py hosts)
    IsEnded w (err e, w') = (w' ≡ w) ⊎ ((x : E) × (e ≡ raised x))

    -- Where sorting keeps the number of machines, a call that returns without a summary has written
    -- nothing, a summary counts every discovered virtual machine once, and an exception leaves
    -- NetBox as it was unless it is one that NetBox raised: no check of the program fails after the
    -- first write.
    pub apply_virtual_machines-IsEnded :
        ((vms : List VirtualMachine) → length (py.sort_machines vms) ≡ length vms)
        → (confirmed : Bool) (w : W)
        → IsEnded w (apply_virtual_machines py api hosts config confirmed w)
    unfolding apply_virtual_machines
    apply_virtual_machines-IsEnded sorts confirmed w =
        go confirmed (precheck py api hosts config w) refl
      where
        wrote :
            (n : ℕ)
            → n ≡ length (discovered py hosts)
            → (r : Result (ApplyError E) Summary × W) → Counts no_writes n r.0
            → IsEnded w (elim r.0 [ ok s ↦ ok (some s) | err e ↦ err e ], r.1)
        wrote n e (ok s, w') counts = omega (arith, e, counts)
        wrote n e (err x, w') counts = inr counts

        go :
            (confirmed : Bool) (r : Result (ApplyError E) (ℕ × List Context))
            → precheck py api hosts config w ≡ r
            → IsEnded w (confirmed_only py api confirmed r w)
        go confirmed (err e) h = inl refl
        go false (ok checked) h = refl
        go true (ok (cluster, cs)) h =
            let checked = precheck-IsChecked py api hosts config w cluster cs h in
            wrote (length cs)
              (length-preflight_all _ _ cluster (py.sort_machines (discovered py hosts)) cs
                  checked.whole
                ∙ sorts (discovered py hosts))
              (write_all py api cluster cs no_writes w)
              (write_all-Counts cluster cs no_writes w checked.open_only checked.readable)
