-- ===== src/Headers/Returns.antt =====
-- `add_headers` of src/handle/graphql.rs returns, if the ratios are usable.
use subgraph_mock.Base.{String, Option, none, some, List, [], ◌∷◌, Dict, lookup, true}
use subgraph_mock.Http.{HeaderOps}
use subgraph_mock.Random.{Random}
use subgraph_mock.Random.Yields.{Yields-any}
use subgraph_mock.Random.Runs.{Runs, Runs-pure, Runs-bind, Runs-random_ratio}
use subgraph_mock.Generation.{Ratio, ResponseGenerationConfig}
use subgraph_mock.Config.Settings.{Config}
use subgraph_mock.Builder.Returns.Leaves.{IsRatio}
use subgraph_mock.Headers.{is_none_or_hits, current_ratio, add_each, add_headers}

-- The ratio of each header is a fraction up to one.
abbrev pub HasRatios : Dict Ratio → Type 0
HasRatios ratios = (name : String) → IsRatio (lookup name ratios)

module _ (R : Random) (H : HeaderOps) where
  Runs-is_none_or_hits : (ratio : Option Ratio) → IsRatio ratio → Runs (is_none_or_hits R H ratio)
  unfolding is_none_or_hits
  Runs-is_none_or_hits none h = Runs-pure true
  Runs-is_none_or_hits (some (n, d)) h = Runs-random_ratio R n d h.0 h.1

  module _ (ratios : Dict Ratio) (valid : HasRatios ratios) where
    current_ratio-IsRatio :
        (name : Option String) (last : Option Ratio)
        → IsRatio last
        → IsRatio (current_ratio ratios name last)
    current_ratio-IsRatio none last h = h
    current_ratio-IsRatio (some name) last h = valid name

    Runs-add_each :
        (values : List (Option String × String)) (name : String) (last : Option Ratio)
        (headers : H.HeaderMap)
        → IsRatio last
        → Runs (add_each R H ratios values name last headers)
    unfolding add_each
    Runs-add_each [] name last headers h = Runs-pure headers
    Runs-add_each ((named, value) ∷ more) name last headers h =
        let now = current_ratio-IsRatio named last h in
        Runs-bind _ _ (Runs-is_none_or_hits (current_ratio ratios named last) now) (Yields-any _)
          λ b _. Runs-add_each more _ (current_ratio ratios named last) _ now

  pub Runs-add_headers :
      (config : Config H.HeaderMap) (cfg : ResponseGenerationConfig) (subgraph_name : Option String)
      (headers : H.HeaderMap)
      → HasRatios cfg.header_ratio
      → Runs (add_headers R H config cfg subgraph_name headers)
  unfolding add_headers
  Runs-add_headers config cfg subgraph_name headers valid =
      Runs-bind _ _ (Runs-add_each cfg.header_ratio valid _ "unused" none headers tt) (Yields-any _)
        λ added _. Runs-pure _
