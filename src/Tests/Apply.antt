-- ===== src/Tests/Apply.antt =====
-- Runs of the full apply and of the report on disappeared objects.
use infra_sync.Prelude.{
  ℕ, suc, String, ◌≡◌, refl, Bool, true, false, Option, none, some, List, [], ◌∷◌, Result, ok, err,
  inl, inr,
}
use infra_sync.Json.{Json, str, arr, obj, cons, nil, Fields, end, field}
use infra_sync.Identity.Record.{SourceIdentity, to_record}
use infra_sync.FullApply.{Action, Stages, apply_full_sync}
use infra_sync.FullApply.Laws.{ReadOnly, Raises, apply_full_sync-blocked}
use infra_sync.Disappearance.{
  Vm, Interface, Report, NetBox, Found, target_cluster, gather_found, add_host_guests,
  report_missing_managed_objects,
}
use infra_sync.Disappearance.Identities.{v2, Identity, ReportError, has_pair}
use infra_sync.Tests.{print, web, host}

-- A stage that counts its writes, and one whose precheck raises.
abbrev counting : Bool → Action ℕ String
counting true s = (ok tt, suc s)
counting false s = (ok tt, s)

abbrev conflicting : Bool → Action ℕ String
conflicting true s = (ok tt, suc s)
conflicting false s = (err "conflict", s)

abbrev stages : (Bool → Action ℕ String) → Stages ℕ String
stages last = record {
  apply_hosts = counting;
  apply_virtual_machines = counting;
  apply_vm_networks = counting;
  apply_lxc_containers = counting;
  apply_lxc_networks = last;
  report_missing_managed_objects = λ s. (ok tt, s);
}

abbrev IsUntouched : ℕ → Type 0
IsUntouched s = s ≡ 0

counting-ReadOnly : ReadOnly IsUntouched (stages counting)
counting-ReadOnly = record {
  hosts = λ s p. p;
  virtual_machines = λ s p. p;
  vm_networks = λ s p. p;
  lxc_containers = λ s p. p;
  lxc_networks = λ s p. p;
  report = λ s p. p;
}

conflicting-ReadOnly : ReadOnly IsUntouched (stages conflicting)
conflicting-ReadOnly = record {
  hosts = λ s p. p;
  virtual_machines = λ s p. p;
  vm_networks = λ s p. p;
  lxc_containers = λ s p. p;
  lxc_networks = λ s p. p;
  report = λ s p. p;
}

apply_full_sync-blocked_example :
    ((apply_full_sync (stages conflicting) true 0).0 ≡ err "conflict")
    × ((apply_full_sync (stages conflicting) true 0).1 ≡ 0)
unfolding Raises
apply_full_sync-blocked_example =
    apply_full_sync-blocked IsUntouched (stages conflicting) true 0 "conflict" conflicting-ReadOnly
      (inr (refl, inr (refl, inr (refl, inr (refl, inl refl))))) refl

abbrev gone : SourceIdentity
gone = record web { external_id = "999" }

abbrev fields_of : SourceIdentity → Fields
fields_of i = field "sync_identities" (arr (cons (to_record i) nil)) end

-- One machine that was discovered, with an interface, and one that was not.
abbrev netbox : NetBox
netbox = record {
  site = λ slug. some 1;
  clusters = λ name.
      record { id = 5; scope_type = some "dcim.site"; scope_id = some 1 }
      ∷ record { id = 6; scope_type = none; scope_id = none }
      ∷ [];
  virtual_machines = λ n.
      record { id = 10; name = "web"; custom_fields = fields_of web }
      ∷ record { id = 11; name = "old"; custom_fields = fields_of gone }
      ∷ [];
  interfaces =
      record {
        id = 20;
        name = "net9";
        virtual_machine = some 10;
        custom_fields =
            fields_of (record web { kind = "qemu_interface"; external_id = "101/net9" });
      }
      ∷ [];
}

abbrev report_of : Result ReportError Report → Report
report_of (ok r) = r
report_of (err e) = record {
  managed_guests = 0;
  missing_guests = [];
  managed_interfaces = 0;
  missing_interfaces = [];
}

abbrev report : Report
report = report_of (report_missing_managed_objects print netbox (host ∷ []) "hq" "main")
