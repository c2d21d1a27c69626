-- ===== src/Apply/NetBox.antt =====
-- What the apply stages use of NetBox (pynetbox) and of Python, which are not in the repository.
use infra_sync.Prelude.{ℕ, String, Bool, Option, List, Result}
use infra_sync.Json.{Json, Fields}
use infra_sync.Discovery.{VirtualMachine}

-- A virtual machine of NetBox: `serialized` is `serialize()`, `cluster` the id of the attribute.
pub record Machine : Type 0 where
  pub id : ℕ
  pub name : String
  pub cluster : Option ℕ
  pub serialized : Fields
  pub custom_fields : Fields

pub record Cluster : Type 0 where
  pub id : ℕ
  pub serialized : Fields

-- `str` and the sort key of `repr` (see Identity), `==`, `str.casefold`, `int` of a value that is no
-- natural number, and `sorted` by the node and the number, which is a number there.
pub record Python : Type 0 where
  pub print : Json → String
  pub sort_key : Json → String
  pub same : Json → Json → Bool
  pub casefold : String → String
  pub int_of : Json → Json
  pub sort_machines : List VirtualMachine → List VirtualMachine

-- The queries and the two writes, of which each may raise. `W` is NetBox and what else may change.
pub record Api (W E : Type 0) : Type 0 where
  pub site : String → W → Option ℕ
  pub cluster_type : String → W → Option ℕ
  pub clusters : String → W → List Cluster
  pub all_machines : W → List Machine
  pub machines_in : ℕ → W → List Machine
  pub create : List (String × Json) → W → Result E (Unit {0}) × W
  pub update : ℕ → List (String × Json) → W → Result E (Unit {0}) × W
