-- ===== src/Apply/Patched.antt =====
-- What a PATCH does to an object of NetBox, and that the comparisons of one run are then settled.
use infra_sync.Prelude.{
  String, ◌≡◌, refl, sym, ap, ◌∙◌, Bool, true, false, Option, some, List, [], ◌∷◌, ◌++◌, mem_text,
  All,
}
use infra_sync.Json.{Json, obj, Fields, get, update, keys}
use infra_sync.Apply.Changes.{
  Check, diff, item, item-diff, diff-Settled, Settled-Agree, update-Settled, Agree-get, check_keys,
  are_distinct,
}
use infra_sync.Apply.NetBox.{Machine}

-- The custom fields after a PATCH with these items.
abbrev pub stored_fields : Option Json → Fields → Fields
stored_fields (some (obj fields)) old = fields
stored_fields _ old = old

-- What a PATCH of the items does to an object, as far as the next run reads it: every key that was
-- sent reads as it was sent, every other as it was, and so do the custom fields.
pub record Patched (before : Machine) (items : List (String × Json)) (after : Machine)
    : Type 0 where
  pub serialized :
      (key : String) → get key after.serialized ≡ get key (update items before.serialized)
  pub custom_fields :
      after.custom_fields ≡ stored_fields (item "custom_fields" items) before.custom_fields

-- The custom fields are sent together, where one of the managed ones differs.
abbrev pub custom_change : Bool → Fields → List (String × Json)
custom_change false desired = []
custom_change true desired = ("custom_fields", obj desired) ∷ []

-- Comparisons of distinct fields, none of them the custom fields, that read what they write.
pub record Plain (cs : List Check) : Type 0 where
  pub distinct : are_distinct (check_keys cs) ≡ true
  pub apart : All (λ (c : Check). mem_text c.key ("custom_fields" ∷ []) ≡ false) cs
  pub absent : mem_text "custom_fields" (check_keys cs) ≡ false
  pub reads : All (λ (c : Check). c.reader c.wanted ≡ c.wanted) cs

nothing_extra : (cs : List Check) → All (λ (c : Check). mem_text c.key [] ≡ false) cs
nothing_extra [] = tt
nothing_extra (c ∷ cs) = (refl, nothing_extra cs)

module _ (same : Json → Json → Bool) (same_refl : (v : Json) → same v v ≡ true) (cs : List Check)
    (plain : Plain cs) (before after : Machine) where
  diff-extra :
      (extra : List (String × Json))
      → All (λ (c : Check). mem_text c.key (keys extra) ≡ false) cs
      → Patched before (diff same cs before.serialized ++ extra) after
      → diff same cs after.serialized ≡ []
  diff-extra extra apart patched = diff-Settled same same_refl cs after.serialized (
      Settled-Agree same same_refl cs _ after.serialized
        (Agree-get same same_refl cs _ after.serialized (λ key. sym (patched.serialized key)))
        (update-Settled same same_refl cs before.serialized before.serialized extra plain.distinct
          apart plain.reads
          (Agree-get same same_refl cs before.serialized before.serialized (λ key. refl))))

  pub diff-Patched :
      (differs : Bool) (desired : Fields)
      → Patched before (diff same cs before.serialized ++ custom_change differs desired) after
      → diff same cs after.serialized ≡ []
  diff-Patched false desired patched = diff-extra [] (nothing_extra cs) patched
  diff-Patched true desired patched =
      diff-extra (("custom_fields", obj desired) ∷ []) plain.apart patched

  -- What the custom fields are after the write: as they were, where none differed.
  pub custom_fields-Patched :
      (differs : Bool) (desired : Fields)
      → Patched before (diff same cs before.serialized ++ custom_change differs desired) after
      → stored_fields (item "custom_fields" (custom_change differs desired)) before.custom_fields
        ≡ after.custom_fields
  custom_fields-Patched differs desired patched = sym (
      patched.custom_fields
      ∙ ap (λ o. stored_fields o before.custom_fields)
          (item-diff same same_refl "custom_fields" cs before.serialized
            (custom_change differs desired) plain.absent))
