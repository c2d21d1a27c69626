-- ===== src/Metadata.antt =====
-- The custom fields that the sync owns on NetBox objects: netbox_vm_metadata.py,
-- netbox_lxc_metadata.py, netbox_vm_interface_metadata.py and netbox_metadata.py.
pub mod Machines
pub mod Containers
pub mod Devices
pub mod Nics
pub mod Steps
pub mod Laws
pub mod Scope
pub mod Again
use infra_sync.Prelude.{
  ℕ, String, ◌≡◌, Option, none, some, List, ◌∷◌, strip_prefix, Result, ok, err,
}
use Prim.Native.String.{◌++◌}
use infra_sync.Json.{Json, null, num, str, arr, obj, Fields, put, of_list}

-- `{source}:` is cut off the front of a source id.
unfoldable pub local_source_id : String → String → String
local_source_id source source_id = strip_prefix (source ++ ":") source_id

-- An optional text or number, as it is stored.
abbrev pub text_or_null : Option String → Json
text_or_null none = null
text_or_null (some s) = str s

abbrev pub num_or_null : Option ℕ → Json
num_or_null none = null
num_or_null (some n) = num n

-- `result.update({'sync_identities': ..., 'sync_original_names': ..., ...})`: the fields that every
-- builder writes, and then those of its own kind of object.
abbrev pub sync_items : List Json → Fields → List (String × Json) → List (String × Json)
sync_items identities names items =
    ("sync_identities", arr (of_list identities)) ∷ ("sync_original_names", obj names) ∷ items
