-- ===== src/Tests/Identities.antt =====
-- Runs of the identity and metadata functions.
use mathlib.Core.List.{Perm}
use infra_sync.Prelude.{
  ℕ, String, ◌≡◌, ◌≢◌, ◌↔◌, refl, Bool, true, false, Option, none, some, List, [], ◌∷◌, Result, ok,
  err, if◌then◌else◌, keep,
}
use infra_sync.Json.{Json, str, arr, obj, cons, nil, Fields, end, field, get}
use infra_sync.Identity.Record.{
  SourceIdentity, IsValid, IdentityError, make_identity, from_record, to_record,
  make_identity-eq-ok, from_record-to_record, from_record-IsValid,
}
use infra_sync.Identity.Rank.{match_rank, identities_of, v2_identity_match}
use infra_sync.Identity.Ranked.{IsRank, match_rank-IsRank}
use infra_sync.Identity.Merge.{merge_source_identities, merge_original_name}
use infra_sync.Identity.Merge.Loop.{not_owned, with_identities}
use infra_sync.Identity.Merge.Laws.{merge-match_rank, merge-perm, merge_idem}
use infra_sync.Identity.Select.{select_best, select_best_lem}
use infra_sync.Discovery.{Container}
use infra_sync.Tests.{print, sort_key, web, legacy_record, other_record, stored, container}

web-IsValid : IsValid web
unfolding infra_sync.Prelude.is_blank
web-IsValid = record {
  versioned = refl;
  has_type = refl;
  has_instance = refl;
  has_kind = refl;
  has_external_id = refl;
}

from_record-to_record_example : from_record print (to_record web) ≡ ok (some web)
from_record-to_record_example = from_record-to_record print web web-IsValid

match_rank-IsRank_example :
    (rank : ℕ) × (match_rank print stored web ("node1:qemu:101" ∷ []) true ≡ ok rank)
    × IsRank print web ("node1:qemu:101" ∷ []) true (legacy_record ∷ other_record ∷ []) rank
unfolding identities_of match_rank from_record get make_identity infra_sync.Prelude.is_blank
    infra_sync.Identity.Rank.stands_for infra_sync.Identity.Record.same_identity
    infra_sync.Identity.Rank.is_legacy_match
match_rank-IsRank_example =
    match_rank-IsRank print web ("node1:qemu:101" ∷ []) stored true
      (legacy_record ∷ other_record ∷ []) refl
      (
        (none, refl),
        (
          (
            some (record {
              schema = "v2";
              type = "esxi";
              instance_name = "lab";
              kind = "vm";
              external_id = "u1";
            }),
            refl,
          ),
          tt,
        ),
      )

abbrev merged : List Json
merged = to_record web ∷ other_record ∷ legacy_record ∷ []

merge-match_rank_example :
    match_rank print (with_identities stored merged) web [] false ≡ ok v2_identity_match
unfolding merge_source_identities identities_of get infra_sync.Identity.Merge.foreign_records
    from_record make_identity infra_sync.Prelude.is_blank infra_sync.Prelude.Sorting.sort_by
    infra_sync.Identity.Merge.same_namespace to_record infra_sync.Json.put
merge-match_rank_example =
    merge-match_rank print sort_key stored (with_identities stored merged) web merged [] false
      web-IsValid refl refl

merge-perm_example : Perm merged (to_record web ∷ legacy_record ∷ other_record ∷ [])
unfolding identities_of get merge_source_identities infra_sync.Identity.Merge.foreign_records
    from_record make_identity infra_sync.Prelude.is_blank infra_sync.Prelude.Sorting.sort_by
    infra_sync.Identity.Merge.same_namespace to_record infra_sync.Identity.Merge.Loop.owned
merge-perm_example =
    merge-perm print sort_key stored web (legacy_record ∷ other_record ∷ []) merged refl refl

merge_idem_example :
    merge_source_identities print sort_key (with_identities stored merged) web ≡ ok merged
unfolding merge_source_identities get infra_sync.Identity.Merge.foreign_records from_record
    make_identity infra_sync.Prelude.is_blank infra_sync.Prelude.Sorting.sort_by
    infra_sync.Identity.Merge.same_namespace to_record
merge_idem_example = merge_idem print sort_key stored web merged web-IsValid refl

abbrev names : Fields
names = field "proxmox/node1" (str "Old") (field "v2/proxmox/pve/qemu" (str "Web") end)

abbrev rank_of : ℕ → Result IdentityError ℕ
rank_of n = ok n

select_best_lem_example : select_best rank_of (1 ∷ 2 ∷ 0 ∷ 2 ∷ []) ≡ ok (2 ∷ 2 ∷ [])
unfolding infra_sync.Identity.Select.best_of
select_best_lem_example =
    select_best_lem rank_of (λ n. n) (1 ∷ 2 ∷ 0 ∷ 2 ∷ []) (refl, (refl, (refl, (refl, tt))))

abbrev moved : Container
moved = record container { node_source_id = "proxmox:node2"; original_name = "Moved" }
