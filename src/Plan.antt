-- ===== src/Plan.antt =====
-- The planners of guests: what a run would do about each, without a write.
pub mod Machines
pub mod Containers
use infra_sync.Prelude.{ℕ, ◌+◌, Bool, true, false}
use infra_sync.Json.{Json, null, get, or_null}
use infra_sync.Apply.NetBox.{Machine}

-- The `counters` of `plan_virtual_machines` and `plan_lxc_containers`.
pub record Counters : Type 0 where
  pub matched : ℕ
  pub adopt_candidate : ℕ
  pub created : ℕ
  pub conflict : ℕ

abbrev pub no_counts : Counters
no_counts = record { matched = 0; adopt_candidate = 0; created = 0; conflict = 0 }

abbrev pub counted : Counters → ℕ
counted c = c.matched + c.adopt_candidate + c.created + c.conflict

-- `getattr(candidate, 'tenant', None) is None`
unfoldable pub has_no_tenant : Machine → Bool
has_no_tenant m = elim (or_null (get "tenant" m.serialized)) [ null ↦ true | _ ↦ false ]
