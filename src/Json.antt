-- ===== src/Json.antt =====
-- The JSON values that NetBox custom fields hold, as the Python objects that pynetbox returns.
-- A number that is no natural number is kept as its text. A `dict` is its items in insertion
-- order; a lookup finds the first, and no operation here makes a second item with one key.
use infra_sync.Prelude.{
  ℕ, String, ◌≡◌, refl, ap, Bool, false, Option, none, some, List, [], ◌∷◌, arith, ◌==◌, mem_text,
  eq_iff, if◌then◌else◌,
}

mutual
  pub data Json : Type 0 where
    null : Json
    bool : Bool → Json
    num : ℕ → Json
    real : String → Json
    str : String → Json
    arr : Items → Json
    obj : Fields → Json

  pub data Items : Type 0 where
    nil : Items
    cons : Json → Items → Items

  pub data Fields : Type 0 where
    end : Fields
    field : String → Json → Fields → Fields

abbrev pub to_list : Items → List Json
to_list nil = []
to_list (cons x xs) = x ∷ to_list xs

abbrev pub of_list : List Json → Items
of_list [] = nil
of_list (x ∷ xs) = cons x (of_list xs)

pub to_list-of_list : (xs : List Json) → to_list (of_list xs) ≡ xs
to_list-of_list [] = refl
to_list-of_list (x ∷ xs) = ap (λ l. x ∷ l) (to_list-of_list xs)

-- `d.get(key)`, where `none` is an absent key and `some null` a stored `None`
unfoldable pub get : String → Fields → Option Json
get k end = none
get k (field j v fs) = if j == k then some v else get k fs

-- `d[key] = value`: a new key goes to the end
unfoldable pub put : String → Json → Fields → Fields
put k v end = field k v end
put k v (field j w fs) = if j == k then field k v fs else field j w (put k v fs)

pub get-put :
    (k j : String) (v : Json) (fs : Fields)
    → get j (put k v fs) ≡ (if k == j then some v else get j fs)
unfolding get put
get-put k j v end = refl
get-put k j v (field i w fs) = ground (arith, eq_iff k j, eq_iff i k, eq_iff i j, get-put k j v fs)

-- `value == text` for a value of any type
abbrev pub is_text : Json → String → Bool
is_text (str s) t = s == t
is_text _ t = false

-- `str(value)`. What Python prints for a value that is no text is a parameter.
abbrev pub str_of : (Json → String) → Json → String
str_of print (str s) = s
str_of print v = print v

-- `d.get(key)` where an absent key and a stored `None` are read alike
abbrev pub or_null : Option Json → Json
or_null none = null
or_null (some v) = v

-- `d.update(items)`
unfoldable pub update : List (String × Json) → Fields → Fields
update [] fs = fs
update ((k, v) ∷ items) fs = update items (put k v fs)

abbrev pub keys : List (String × Json) → List String
keys [] = []
keys ((k, v) ∷ items) = k ∷ keys items

-- An update leaves every other key alone.
pub get-update :
    (key : String) (items : List (String × Json)) (fs : Fields)
    → mem_text key (keys items) ≡ false
    → get key (update items fs) ≡ get key fs
unfolding update
get-update key [] fs h = refl
get-update key ((k, v) ∷ items) fs h =
    ground (arith, get-update key items (put k v fs), get-put k key v fs)
