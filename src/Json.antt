-- ===== src/Json.antt =====
-- What the program uses of `serde_json`: a `Value`, how it is made, printed and read.
use simple_claw.Base.{Text, List, [], Option, none, some, ◌⊎◌}

pub record Json (V : Type 0) : Type 0 where
  pub string : Text → V
  pub object : List (Text × V) → V
  pub to_string : V → Text
  pub from_str : Text → Option V

module _ {V : Type 0} (json : Json V) where
  or_empty : Option V → V
  or_empty none = json.object []
  or_empty (some v) = v

  -- `serde_json::from_str(raw).unwrap_or(Value::Object(Default::default()))`
  unfoldable pub parse_or_empty : Text → V
  unfolding or_empty
  parse_or_empty raw = or_empty (json.from_str raw)

-- What is read of a `Value` that comes from a provider.
pub record JsonReader (V : Type 0) : Type 0 where
  pub parse : Text → Text ⊎ V
  pub get : V → Text → Option V
  pub as_array : V → Option (List V)
  pub as_str : V → Option Text
  pub print : V → Text
  pub empty_object : V
