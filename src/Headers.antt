-- ===== src/Headers.antt =====
-- `add_headers` of src/handle/graphql.rs.
pub mod Chosen
pub mod Added
pub mod Returns
use subgraph_mock.Base.{
  ℕ, String, Bool, true, Option, none, some, List, [], ◌∷◌, Dict, lookup, unwrap_or, if◌then◌else◌,
}
use subgraph_mock.Http.{HeaderOps}
use subgraph_mock.Random.{Random, Gen, pure, ◌>>=◌, random_ratio}
use subgraph_mock.Generation.{Ratio, ResponseGenerationConfig}
use subgraph_mock.Config.Settings.{Config}

abbrev pub and_then {ℓ κ} : {A : Type ℓ} {B : Type κ} → Option A → (A → Option B) → Option B
and_then none f = none
and_then (some a) f = f a

-- A setting of the subgraph that the request names, or else that of the server.
abbrev pub setting_of {ℓ} : {V : Type ℓ} → Option String → Dict V → V → V
setting_of subgraph_name overrides common =
    unwrap_or (and_then subgraph_name (λ name. lookup name overrides)) common

-- The ratio of a name that comes with a value, or of the last name.
abbrev pub current_ratio : Dict Ratio → Option String → Option Ratio → Option Ratio
current_ratio ratios none last_ratio = last_ratio
current_ratio ratios (some name) last_ratio = lookup name ratios

module _ (R : Random) (H : HeaderOps) where
  -- `last_ratio.is_none_or(…)`
  unfoldable pub is_none_or_hits : Option Ratio → Gen R.State Bool
  is_none_or_hits none = pure true
  is_none_or_hits (some (numerator, denominator)) = random_ratio R numerator denominator

  -- The loop over the configured headers, with `last_header_name` and `last_ratio`.
  unfoldable pub add_each :
      Dict Ratio
      → List (Option String × String)
      → String
      → Option Ratio
      → H.HeaderMap
      → Gen R.State H.HeaderMap
  add_each ratios [] last_header_name last_ratio headers = pure headers
  add_each ratios ((header_name, value) ∷ more) last_header_name last_ratio headers = do
    should_insert ← is_none_or_hits (current_ratio ratios header_name last_ratio)
    add_each ratios more (unwrap_or header_name last_header_name)
        (current_ratio ratios header_name last_ratio)
        (if should_insert
          then H.insert (unwrap_or header_name last_header_name) value headers
          else headers)

  unfoldable pub add_headers :
      Config H.HeaderMap
      → ResponseGenerationConfig
      → Option String
      → H.HeaderMap
      → Gen R.State H.HeaderMap
  add_headers config rgen_cfg subgraph_name headers = do
    added ←
        add_each rgen_cfg.header_ratio
          (H.into_iter (setting_of subgraph_name config.subgraph_overrides.headers config.headers))
          "unused" none headers
    pure (H.insert "content-type" "application/json" added)
