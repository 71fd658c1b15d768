-- ===== src/Headers/Chosen.antt =====
-- Which setting holds for a request, the subgraph's or the server's: what src/handle/graphql.rs and
-- src/handle/mod.rs look up in the configuration.
use subgraph_mock.Base.{String, ◌≡◌, refl, Option, none, some, Dict, lookup, unwrap_or}
use subgraph_mock.Headers.{setting_of}

-- For no subgraph it is the common setting; for a subgraph it is the one listed for it, or else the
-- common one.
pub data IsChosen {V : Type 0} (subgraph_name : Option String) (overrides : Dict V) (common v : V)
    : Type 0 where
  unnamed : subgraph_name ≡ none → v ≡ common → IsChosen subgraph_name overrides common v
  own :
      (name : String)
      → subgraph_name ≡ some name
      → lookup name overrides ≡ some v
      → IsChosen subgraph_name overrides common v
  general :
      (name : String)
      → subgraph_name ≡ some name
      → lookup name overrides ≡ none
      → v ≡ common
      → IsChosen subgraph_name overrides common v

-- What is chosen is what the code takes.
pub setting_of-IsChosen :
    {V : Type 0} (subgraph_name : Option String) (overrides : Dict V) (common : V)
    → IsChosen subgraph_name overrides common (setting_of subgraph_name overrides common)
setting_of-IsChosen {V} none overrides common = unnamed refl refl
setting_of-IsChosen {V} (some name) overrides common = from (lookup name overrides) refl
  where
    from :
        (o : Option V)
        → lookup name overrides ≡ o
        → IsChosen (some name) overrides common (unwrap_or o common)
    from none e = general name refl e refl
    from (some v) e = own name refl e
