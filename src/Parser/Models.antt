-- ===== src/Parser/Models.antt =====
-- aqueduct/parser/models.py: the modules and the edges of a Blueprint.
use aqueduct_test.Base.{Bool, String, Option, List}
use aqueduct_test.Patch.Value.{Value, Fields}

-- `id'` and `type'` are the fields `id` and `type`.
pub record Module : Type 0 where
  pub id' : String
  pub type' : String
  pub label : String
  pub config : Fields
  pub description : String
  pub tags : List String
  pub spillway : Option String
  pub depends_on : List String
  pub on_failure : Option Fields
  pub on_failure_webhook : Option Value
  pub checkpoint : Bool
  pub attach_to : Option String
  pub ref' : Option String
  pub context_override : Option Fields

pub record Edge : Type 0 where
  pub from_id : String
  pub to_id : String
  pub port : String
  pub error_types : List String
