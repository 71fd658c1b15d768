-- ===== src/Json.antt =====
-- JSON values (`serde_json_bytes::Value`), which the response builder produces.
use subgraph_mock.Base.{ℕ, String, Bool, List, [], ◌∷◌, Dict, ℤ}

-- An `f64` stands as its 64 bits.
pub data Number : Type 0 where
  int : ℤ → Number
  float : ℕ → Number

mutual
  pub data Json : Type 0 where
    null : Json
    bool : Bool → Json
    number : Number → Json
    string : String → Json
    array : Items → Json
    object : Members → Json

  pub data Items : Type 0 where
    no_items : Items
    item : Json → Items → Items

  pub data Members : Type 0 where
    no_members : Members
    member : String → Json → Members → Members

abbrev pub items : List Json → Items
items [] = no_items
items (v ∷ vs) = item v (items vs)

abbrev pub members : Dict Json → Members
members [] = no_members
members ((k, v) ∷ m) = member k v (members m)

-- `Value::Array` of a vector and `Value::Object` of a map.
abbrev pub array_of : List Json → Json
array_of vs = array (items vs)

abbrev pub object_of : Dict Json → Json
object_of m = object (members m)
