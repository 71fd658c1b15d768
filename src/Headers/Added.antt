-- ===== src/Headers/Added.antt =====
-- Which headers a response has after `add_headers` of src/handle/graphql.rs.
use text.Mathlib.TextPositions.{eq_refl}
use subgraph_mock.Base.{
  unwrap_or, ◌≡◌, refl, sym, ap, ◌∙◌, Bool, true, false, String, Option, none, some, ◌⊎◌, inl, inr,
  Bool-cases, List, [], ◌∷◌, ◌++◌, Dict, lookup, keys, contains, lookup_absent, eq_iff, ok, arith,
  ◌==◌, if◌then◌else◌,
}
use subgraph_mock.Http.{HeaderOps, IsHeaderOps, IsMultimap, unnamed, in_order}
use subgraph_mock.Random.{Random}
use subgraph_mock.Random.Yields.{
  Yields, Yields-pure, Yields-bind, Yields-any, Yields-weaken, Yields-eq,
}
use subgraph_mock.Generation.{Ratio, ResponseGenerationConfig}
use subgraph_mock.Config.Settings.{Config}
use subgraph_mock.Headers.Chosen.{IsChosen, setting_of-IsChosen}
use subgraph_mock.Headers.{setting_of, is_none_or_hits, add_each, add_headers}

-- The last of some values, or what was there before.
abbrev pub last_of : List String → List String → List String
last_of [] before = before
last_of (value ∷ values) before = last_of values (value ∷ [])

-- What becomes of a header with these values: without a ratio the last one is set; with a ratio, one
-- of them or none.
abbrev pub Sets : Option Ratio → List String → List String → List String → Type 0
Sets none values before after = after ≡ last_of values before
Sets (some r) values before after =
    (after ≡ before) ⊎ ((value : String) × (contains values value ≡ true) × (after ≡ (value ∷ [])))

Sets-nil :
    (ratio : Option Ratio) (before after : List String)
    → after ≡ before
    → Sets ratio [] before after
Sets-nil none before after h = h
Sets-nil (some r) before after h = inl h

Sets-nil_eq :
    (ratio : Option Ratio) (before after : List String)
    → Sets ratio [] before after
    → after ≡ before
Sets-nil_eq none before after h = h
Sets-nil_eq (some r) before after (inl e) = e
Sets-nil_eq (some r) before after (inr (value, there, e)) = cc

Sets-before :
    (ratio : Option Ratio) (values before before' after : List String)
    → before ≡ before'
    → Sets ratio values before after
    → Sets ratio values before' after
Sets-before ratio values before before' after e h = rw (sym e) h

-- One more value, where `middle` is what is there after it.
Sets-step :
    (ratio : Option Ratio) (b : Bool) (value : String) (values before middle after : List String)
    → middle ≡ (if b then value ∷ [] else before)
    → (ratio ≡ none → b ≡ true)
    → Sets ratio values middle after
    → Sets ratio (value ∷ values) before after
Sets-step none true value values before middle after is always h = h ∙ ap (last_of values) is
Sets-step none false value values before middle after is always h = let never = always refl in cc
Sets-step (some r) true value values before middle after is always (inl e) =
    inr (value, rw eq_refl refl, e ∙ is)
Sets-step (some r) false value values before middle after is always (inl e) = inl (e ∙ is)
Sets-step (some r) b value values before middle after is always (inr (v, there, e)) =
    inr (v, ground arith, e)

-- The values of a name among the entries.
abbrev pub values_of : String → Dict (List String) → List String
values_of k entries = unwrap_or (lookup k entries) []

module _ (R : Random) (H : HeaderOps) (laws : IsHeaderOps H) where
  Yields-is_none_or_hits :
      (ratio : Option Ratio) → Yields (λ b. ratio ≡ none → b ≡ true) (is_none_or_hits R H ratio)
  unfolding is_none_or_hits
  Yields-is_none_or_hits none = Yields-pure true (λ e. refl)
  Yields-is_none_or_hits (some r) = Yields-weaken (Yields-any _) (λ b _ e. cc)

  -- A header that is inserted or not.
  get_all-if_same :
      (b : Bool) (name value : String) (headers : H.HeaderMap)
      → H.get_all name (if b then H.insert name value headers else headers)
        ≡ (if b then value ∷ [] else H.get_all name headers)
  get_all-if_same true name value headers = laws.get_all-insert_same name value headers
  get_all-if_same false name value headers = refl

  get_all-if_other :
      (b : Bool) (k name value : String) (headers : H.HeaderMap)
      → name == k ≡ false
      → H.get_all k (if b then H.insert name value headers else headers) ≡ H.get_all k headers
  get_all-if_other true k name value headers h = laws.get_all-insert_other k name value headers h
  get_all-if_other false k name value headers h = refl

  module _ (ratios : Dict Ratio) where
    -- What the loop does from some headers on, over the rest of the entries.
    abbrev Added : Dict (List String) → H.HeaderMap → H.HeaderMap → Type 0
    Added entries before after =
        (k : String)
        → Sets (lookup k ratios) (values_of k entries) (H.get_all k before) (H.get_all k after)

    abbrev AddedTo :
        String
        → Option Ratio
        → List String
        → Dict (List String)
        → H.HeaderMap
        → H.HeaderMap
        → Type 0
    AddedTo name ratio values entries before after =
        Sets ratio values (H.get_all name before) (H.get_all name after)
        × ((k : String)
            → name == k ≡ false
            → Sets (lookup k ratios) (values_of k entries) (H.get_all k before) (H.get_all k after))

    -- The values of one name, if the loop is understood over the names after it.
    add_each-AddedTo :
        (entries : Dict (List String)) (name : String) (ratio : Option Ratio)
        → contains (keys entries) name ≡ false
        → ((headers : H.HeaderMap)
            → Yields
                (Added entries headers)
                (add_each R H ratios (in_order entries) name ratio headers))
        → (values : List String) (headers : H.HeaderMap)
        → Yields
            (AddedTo name ratio values entries headers)
            (add_each R H ratios (unnamed values ++ in_order entries) name ratio headers)
    unfolding add_each
    add_each-AddedTo entries name ratio fresh rest [] headers =
        Yields-weaken (rest headers)
          λ after h. (Sets-nil ratio _ _ (named after (h name)), λ k _. h k)
      where
        named :
            (after : H.HeaderMap)
            → Sets
                (lookup name ratios)
                (values_of name entries)
                (H.get_all name headers)
                (H.get_all name after)
            → H.get_all name after ≡ H.get_all name headers
        named after h =
            Sets-nil_eq (lookup name ratios) _ _ (rw (lookup_absent name entries fresh) at h)
    add_each-AddedTo entries name ratio fresh rest (value ∷ values) headers =
        Yields-bind _ _ (Yields-is_none_or_hits ratio) λ b always.
          Yields-weaken
            (add_each-AddedTo entries name ratio fresh rest values
              (if b then H.insert name value headers else headers))
            λ after h. (
              Sets-step ratio b value values _ _ _ (get_all-if_same b name value headers) always
                  h.0,
              λ k differ.
                  Sets-before (lookup k ratios) (values_of k entries) _ _ _
                    (get_all-if_other b k name value headers differ) (h.1 k differ),
            )

    add_each-Added :
        (entries : Dict (List String)) (last_name : String) (last_ratio : Option Ratio)
        (headers : H.HeaderMap)
        → IsMultimap entries
        → Yields
            (Added entries headers)
            (add_each R H ratios (in_order entries) last_name last_ratio headers)
    unfolding add_each
    add_each-Added [] last_name last_ratio headers h =
        Yields-pure headers (λ k. unfold lookup in Sets-nil (lookup k ratios) _ _ refl)
    add_each-Added ((name, []) ∷ entries) last_name last_ratio headers h = absurd h
    add_each-Added ((name, value ∷ values) ∷ entries) last_name last_ratio headers h =
        Yields-weaken
          (add_each-AddedTo entries name (lookup name ratios) h.0
            (λ headers. add_each-Added entries name (lookup name ratios) headers h.1)
            (value ∷ values) headers)
          λ after added k. elim (Bool-cases (name == k)) [
            | inl same ↦ rw (sym ((eq_iff name k).0 same)) (unfold lookup in rw eq_refl added.0)
            | inr differ ↦ unfold lookup in rw differ (added.1 k differ)
          ]

-- What headers a response has that had none: its content type, and of the configured headers what
-- their ratios leave.
pub record HasHeaders (H : HeaderOps) (ratios : Dict Ratio) (configured headers : H.HeaderMap)
    : Type 0 where
  pub content_type : H.get_all "content-type" headers ≡ ("application/json" ∷ [])
  pub others :
      (k : String)
      → "content-type" == k ≡ false
      → Sets (lookup k ratios) (H.get_all k configured) [] (H.get_all k headers)

module _ (R : Random) (H : HeaderOps) (laws : IsHeaderOps H) (config : Config H.HeaderMap)
    (rgen_cfg : ResponseGenerationConfig) (subgraph_name : Option String) where
  abbrev configured : H.HeaderMap
  configured = setting_of subgraph_name config.subgraph_overrides.headers config.headers

  pub add_headers-HasHeaders :
      Yields
        (HasHeaders H rgen_cfg.header_ratio configured)
        (add_headers R H config rgen_cfg subgraph_name H.empty)
  unfolding add_headers
  add_headers-HasHeaders =
      let iterated = laws.iterated configured in
      rw iterated.ordered (
        Yields-bind _ _
          (add_each-Added R H laws rgen_cfg.header_ratio iterated.entries "unused" none H.empty
            iterated.multimap)
          λ added each. Yields-pure _ (record {
            content_type = laws.get_all-insert_same "content-type" "application/json" added;
            others = λ k differ.
                rw
                  (
                    laws.get_all-insert_other k "content-type" "application/json" added differ,
                    iterated.values k,
                  )
                  (Sets-before (lookup k rgen_cfg.header_ratio) _ _ _ _ (laws.get_all-empty k)
                    (each k));
          }))

  pub configured-IsChosen :
      IsChosen subgraph_name config.subgraph_overrides.headers config.headers configured
  configured-IsChosen =
      setting_of-IsChosen subgraph_name config.subgraph_overrides.headers config.headers

  -- With header maps that keep their laws, the headers that are added to a response without any are
  -- those listed for the subgraph that is named, or those of the server where none is named or none
  -- are listed for it: a header without a ratio has the last of its values, one with a ratio has one
  -- of its values or is left out, no other header is there, and the content type is JSON.
  pub add_headers_lem :
      (s s' : R.State) (headers : H.HeaderMap)
      → add_headers R H config rgen_cfg subgraph_name H.empty s ≡ ok (headers, s')
      → (chosen : H.HeaderMap) × IsChosen subgraph_name config.subgraph_overrides.headers
          config.headers chosen
        × HasHeaders H rgen_cfg.header_ratio chosen headers
  add_headers_lem s s' headers e =
      (configured, configured-IsChosen, Yields-eq {s = s} add_headers-HasHeaders e)
