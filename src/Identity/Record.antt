-- ===== src/Identity/Record.antt =====
-- The class `SourceIdentity` of netbox_sync/source_identity.py.
use infra_sync.Prelude.{
  String, ◌≡◌, ◌↔◌, Bool, true, false, ◌&&◌, Option, none, some, arith, ◌==◌, eq_iff, if◌then◌else◌,
  Result, ok, err, ◌>>=◌, ◌>>◌, require, is_blank, not,
}
use infra_sync.Json.{Json, str, obj, Fields, end, field, get, str_of}

-- Each is a `ValueError`, told apart by its message.
pub data IdentityError : Type 0 where
  unsupported_schema invalid_record identities_not_list unsupported_value names_not_object :
      IdentityError
  empty_field : String → IdentityError

abbrev pub schema_v2 : String
schema_v2 = "v2"

pub record SourceIdentity : Type 0 where
  pub schema : String
  pub type : String
  pub instance_name : String
  pub kind : String
  pub external_id : String

-- What `__post_init__` checks of the four texts.
pub record IsValid (i : SourceIdentity) : Type 0 where
  pub versioned : i.schema ≡ schema_v2
  pub has_type : is_blank i.type ≡ false
  pub has_instance : is_blank i.instance_name ≡ false
  pub has_kind : is_blank i.kind ≡ false
  pub has_external_id : is_blank i.external_id ≡ false

required_text : String → String → Result IdentityError (Unit {0})
required_text value name = require (not (is_blank value)) (empty_field name)

-- The constructor, with `__post_init__`.
unfoldable pub make_identity : SourceIdentity → Result IdentityError SourceIdentity
unfolding required_text
make_identity i = do
  require (i.schema == schema_v2) unsupported_schema
  required_text i.type "type"
  required_text i.instance_name "instance"
  required_text i.kind "kind"
  required_text i.external_id "external_id"
  ok i

-- `==` of the frozen dataclass
unfoldable pub same_identity : SourceIdentity → SourceIdentity → Bool
same_identity a b =
    a.schema == b.schema
    && a.type == b.type
    && a.instance_name == b.instance_name
    && a.kind == b.kind
    && a.external_id == b.external_id

unfoldable pub to_record : SourceIdentity → Json
to_record i = obj (
    field "schema" (str i.schema) (
      field "type" (str i.type) (
        field "instance" (str i.instance_name)
          (field "kind" (str i.kind) (field "external_id" (str i.external_id) end)))))

-- `value[key]` for a field that must be a text: any failure becomes the one `ValueError`.
abbrev text_of : Option Json → Result IdentityError String
text_of (some (str s)) = ok s
text_of _ = err invalid_record

-- `str(value['external_id'])`
abbrev printed : (Json → String) → Option Json → Result IdentityError String
printed print none = err invalid_record
printed print (some v) = ok (str_of print v)

-- `except (KeyError, TypeError, ValueError) as exc: raise ValueError(...) from exc`
abbrev relabel : Result IdentityError SourceIdentity → Result IdentityError (Option SourceIdentity)
relabel (ok i) = ok (some i)
relabel (err e) = err invalid_record

parse_fields : (Json → String) → Fields → Result IdentityError SourceIdentity
parse_fields print fs = do
  type ← text_of (get "type" fs)
  instance_name ← text_of (get "instance" fs)
  kind ← text_of (get "kind" fs)
  external_id ← printed print (get "external_id" fs)
  make_identity (record {
    schema = schema_v2;
    type = type;
    instance_name = instance_name;
    kind = kind;
    external_id = external_id;
  })

abbrev pub is_v2_text : Option Json → Bool
is_v2_text (some (str s)) = s == schema_v2
is_v2_text _ = false

-- `value.get('schema') == IDENTITY_SCHEMA_V2` of a record
unfoldable pub is_v2 : Fields → Bool
is_v2 fs = is_v2_text (get "schema" fs)

-- `SourceIdentity.from_record`; `print` is `str` of a value that is no text
unfoldable pub from_record : (Json → String) → Json → Result IdentityError (Option SourceIdentity)
unfolding is_v2 parse_fields
from_record print (obj fs) = if is_v2 fs then relabel (parse_fields print fs) else ok none
from_record print _ = ok none

pub same_identity_iff : (a b : SourceIdentity) → (same_identity a b ≡ true) ↔ (a ≡ b)
unfolding same_identity
same_identity_iff a b = ground (
  arith,
  eq_iff a.schema b.schema,
  eq_iff a.type b.type,
  eq_iff a.instance_name b.instance_name,
  eq_iff a.kind b.kind,
  eq_iff a.external_id b.external_id,
)

-- The constructor accepts exactly the valid identities, and keeps them as they are.
pub make_identity-eq-ok : (i j : SourceIdentity) → (make_identity i ≡ ok j) ↔ (IsValid i × (i ≡ j))
unfolding make_identity
make_identity-eq-ok i j = ground (arith, eq_iff i.schema schema_v2)

-- A valid identity is read back from its record.
pub from_record-to_record :
    (print : Json → String) (i : SourceIdentity)
    → IsValid i
    → from_record print (to_record i) ≡ ok (some i)
unfolding from_record to_record get make_identity
from_record-to_record print i v = ground (arith, eq_iff i.schema schema_v2)

parse_fields-IsValid :
    (print : Json → String) (fs : Fields) (i : SourceIdentity)
    → parse_fields print fs ≡ ok i
    → IsValid i
unfolding parse_fields make_identity
parse_fields-IsValid print fs i h = ground arith

-- Whatever stands in NetBox, an identity that is read is valid.
pub from_record-IsValid :
    (print : Json → String) (v : Json) (i : SourceIdentity)
    → from_record print v ≡ ok (some i)
    → IsValid i
unfolding from_record
from_record-IsValid print (obj fs) i h = ground (arith, parse_fields-IsValid print fs i)
from_record-IsValid print v i h = cc
