-- ===== src/Apply/Changes.antt =====
-- The fields of a NetBox object that differ from what is wanted: the comparisons of `_vm_changes`
-- (netbox_sync/netbox_vm_apply.py) and `_changes` (netbox_sync/netbox_lxc_apply.py).
use mathlib.Core.Path.{subst}
use infra_sync.Prelude.{
  sym, ◌∙◌, String, ◌≡◌, refl, Bool, true, false, Option, none, some, List, [], ◌∷◌, ◌++◌, arith,
  ◌==◌, eq_iff, ==_refl, if◌then◌else◌, mem_text, All, Bool-cases, inl, inr,
}
use infra_sync.Json.{Json, Fields, get, put, get-put, or_null, update, get-update, keys}

-- One comparison: the key of the serialized object, how its value is read, and what is wanted.
pub record Check : Type 0 where
  pub key : String
  pub reader : Json → Json
  pub wanted : Json

module _ (same : Json → Json → Bool) where
  abbrev pub is_settled : Fields → Check → Bool
  is_settled stored c = same (c.reader (or_null (get c.key stored))) c.wanted

  -- `if reader(data.get(key)) != wanted: changes[key] = wanted`, for each
  unfoldable pub diff : List Check → Fields → List (String × Json)
  diff [] stored = []
  diff (c ∷ cs) stored =
      let rest = diff cs stored in if is_settled stored c then rest else (c.key, c.wanted) ∷ rest

-- What is sent for one key.
unfoldable pub item : String → List (String × Json) → Option Json
item key [] = none
item key ((k, v) ∷ items) = if k == key then some v else item key items

abbrev pub check_keys : List Check → List String
check_keys [] = []
check_keys (c ∷ cs) = c.key ∷ check_keys cs

abbrev pub are_distinct : List String → Bool
are_distinct [] = true
are_distinct (k ∷ ks) = if mem_text k ks then false else are_distinct ks

module _ (same : Json → Json → Bool) (same_refl : (v : Json) → same v v ≡ true) where
  -- Two versions of an object agree where these comparisons look.
  abbrev pub Agree : List Check → Fields → Fields → Type 0
  Agree cs a b = All (λ (c : Check). get c.key a ≡ get c.key b) cs

  -- What is read back from a wanted value is that value.
  abbrev pub Reads : List Check → Type 0
  Reads cs = All (λ (c : Check). c.reader c.wanted ≡ c.wanted) cs

  abbrev pub Settled : List Check → Fields → Type 0
  Settled cs stored = All (λ (c : Check). is_settled same stored c ≡ true) cs

  pub diff-Settled :
      (cs : List Check) (stored : Fields) → Settled cs stored → diff same cs stored ≡ []
  unfolding diff
  diff-Settled [] stored h = refl
  diff-Settled (c ∷ cs) stored h = ground (arith, h.0, diff-Settled cs stored h.1)

  pub Settled-Agree : (cs : List Check) (a b : Fields) → Agree cs a b → Settled cs a → Settled cs b
  Settled-Agree [] a b agree h = tt
  Settled-Agree (c ∷ cs) a b agree h =
      (ground (arith, agree.0, h.0), Settled-Agree cs a b agree.1 h.1)

  keys-diff :
      (k : String) (cs : List Check) (stored : Fields) (extra : List (String × Json))
      → mem_text k (check_keys cs) ≡ false
      → mem_text k (keys extra) ≡ false
      → mem_text k (keys (diff same cs stored ++ extra)) ≡ false
  unfolding diff
  keys-diff k [] stored extra h e = e
  keys-diff k (c ∷ cs) stored extra h e = ground (arith, keys-diff k cs stored extra)

  Agree-put :
      (k : String) (v : Json) (cs : List Check) (a b : Fields)
      → mem_text k (check_keys cs) ≡ false
      → Agree cs a b
      → Agree cs (put k v a) b
  Agree-put k v [] a b h agree = tt
  Agree-put k v (c ∷ cs) a b h agree = (
    ground (arith, get-put k c.key v a, agree.0, eq_iff k c.key, eq_iff c.key k),
    Agree-put k v cs a b (ground arith) agree.1,
  )

  diff-cons :
      (c : Check) (cs : List Check) (stored : Fields)
      → diff same (c ∷ cs) stored ≡ (
          if is_settled same stored c
          then diff same cs stored
          else (c.key, c.wanted) ∷ diff same cs stored)
  unfolding diff
  diff-cons c cs stored = refl

  -- Once the changes are stored, every comparison is settled.
  pub update-Settled :
      (cs : List Check) (stored base : Fields) (extra : List (String × Json))
      → are_distinct (check_keys cs) ≡ true
      → All (λ (c : Check). mem_text c.key (keys extra) ≡ false) cs
      → Reads cs
      → Agree cs base stored
      → Settled cs (update (diff same cs stored ++ extra) base)
  unfolding update
  update-Settled [] stored base extra d e r agree = tt
  update-Settled (c ∷ cs) stored base extra d e r agree =
      let absent = keys-diff c.key cs stored extra (ground arith) e.0 in
      elim (Bool-cases (is_settled same stored c)) [
        | inl settled ↦
            let same_list : diff same (c ∷ cs) stored ≡ diff same cs stored =
              diff-cons c cs stored ∙ rw settled in
            subst (λ l. Settled (c ∷ cs) (update (l ++ extra) base)) (sym same_list)
              (
                ground (
                  arith,
                  get-update c.key (diff same cs stored ++ extra) base absent,
                  agree.0,
                  settled,
                ),
                update-Settled cs stored base extra (ground arith) e.1 r.1 agree.1,
              )
        | inr unsettled ↦
            let longer : diff same (c ∷ cs) stored ≡ (c.key, c.wanted) ∷ diff same cs stored =
              diff-cons c cs stored ∙ rw unsettled in
            subst (λ l. Settled (c ∷ cs) (update (l ++ extra) base)) (sym longer)
              (
                ground (
                  arith,
                  get-update c.key (diff same cs stored ++ extra) (put c.key c.wanted base) absent,
                  get-put c.key c.key c.wanted base,
                  ==_refl c.key,
                  same_refl c.wanted,
                  r.0,
                ),
                update-Settled cs stored (put c.key c.wanted base) extra (ground arith) e.1 r.1
                    (Agree-put c.key c.wanted cs base stored (ground arith) agree.1),
              )
      ]

  pub item-diff :
      (key : String) (cs : List Check) (stored : Fields) (extra : List (String × Json))
      → mem_text key (check_keys cs) ≡ false
      → item key (diff same cs stored ++ extra) ≡ item key extra
  unfolding diff item
  item-diff key [] stored extra h = refl
  item-diff key (c ∷ cs) stored extra h = ground (arith, item-diff key cs stored extra)

  pub Agree-get :
      (cs : List Check) (a b : Fields) → ((key : String) → get key a ≡ get key b) → Agree cs a b
  Agree-get [] a b h = tt
  Agree-get (c ∷ cs) a b h = (h c.key, Agree-get cs a b h)
