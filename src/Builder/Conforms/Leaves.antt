-- ===== src/Builder/Conforms/Leaves.antt =====
-- Leaf values and type names of src/handle/graphql.rs lie in what the schema and the configuration
-- allow.
use subgraph_mock.Base.{
  ◌≡◌, refl, true, String, Option, none, some, List, map, ok_or, unwrap, ok_or-eq-ok, unwrap-eq-ok,
  lookup, contains, length, get_elem?, All, All-map, All-get_elem?, All-contains,
}
use subgraph_mock.Json.{Json, array_of}
use subgraph_mock.Schema.{FederatedSchema, ExtendedType, EnumValueDefinition, UnionType}
use subgraph_mock.Random.{Random, IsLawful, random_below}
use subgraph_mock.Random.Yields.{
  Yields, Yields-pure, Yields-bind, Yields-lift, Yields-weaken, Yields-panicked, Yields-repeat,
  Yields-any, Yields-random_range, Yields-choose,
}
use subgraph_mock.Generation.{ResponseGenerationConfig}
use subgraph_mock.Generation.Scalars.{generate-InRange}
use subgraph_mock.Builder.{
  values, union_type, arbitrary_array_len, arbitrary_union_member, leaf_of_type, leaf_field,
  array_leaf_field, typename_of, typename,
}
use subgraph_mock.Builder.Spec.{LeafOf, LeafOk, TypenameOf, TypenameOk, LengthOk}

module _ (R : Random) (law : IsLawful R) (cfg : ResponseGenerationConfig)
    (schema : FederatedSchema) where
  leaf_of_type-LeafOf :
      (type_name : String) (t : ExtendedType)
      → Yields (LeafOf cfg schema t) (leaf_of_type R cfg schema type_name t)
  unfolding leaf_of_type
  leaf_of_type-LeafOf type_name (ExtendedType.enum e) =
      let value = λ (d : EnumValueDefinition). d.value in
      let names = map value (values e.values) in
      Yields-bind _ _
        (Yields-choose R (values e.values)
          (All-map (λ n. contains names n ≡ true) value (values e.values) (All-contains names)))
        λ chosen h.
          Yields-bind _ _ (Yields-lift (ok_or chosen _) (λ d e. h d (ok_or-eq-ok chosen _ e)))
            λ d k. Yields-pure (Json.string d.value) (d.value, refl, k)
  leaf_of_type-LeafOf type_name (ExtendedType.scalar s) = generate-InRange R law _
  leaf_of_type-LeafOf type_name _ = Yields-panicked

  pub leaf_field-LeafOk :
      (type_name : String)
      → Yields (LeafOk cfg schema type_name) (leaf_field R cfg schema type_name)
  unfolding leaf_field
  leaf_field-LeafOk type_name =
      Yields-bind _ _
        (Yields-lift {P = λ t. lookup type_name schema.valid.types ≡ some t}
          (unwrap (lookup type_name schema.valid.types))
          (λ t e. unwrap-eq-ok (lookup type_name schema.valid.types) e))
        λ t found. Yields-weaken (leaf_of_type-LeafOf type_name t) (λ v h. (t, found, h))

  pub arbitrary_array_len-LengthOk : Yields (LengthOk cfg schema) (arbitrary_array_len R cfg schema)
  unfolding arbitrary_array_len
  arbitrary_array_len-LengthOk = Yields-random_range R law cfg.array.min_length cfg.array.max_length

  -- A leaf that is a list is an array of leaves, of a length that the configuration allows.
  pub array_leaf_field-LeafOk :
      (type_name : String)
      → Yields
          (λ v.
            (vs : List Json) × (v ≡ array_of vs)
            × LengthOk cfg schema (length vs)
            × All (LeafOk cfg schema type_name) vs)
          (array_leaf_field R cfg schema type_name)
  unfolding array_leaf_field
  array_leaf_field-LeafOk type_name = Yields-bind _ _ arbitrary_array_len-LengthOk λ n bounds.
      Yields-bind _ _ (Yields-repeat _ (leaf_field-LeafOk type_name) n)
        λ vs h. Yields-pure (array_of vs) (vs, refl, rw h.0 bounds, h.1)

  arbitrary_union_member-contains :
      (u : UnionType)
      → Yields (λ n. contains u.members n ≡ true) (arbitrary_union_member R cfg schema u)
  unfolding arbitrary_union_member
  arbitrary_union_member-contains u =
      Yields-bind _ _ (Yields-any (random_below R (length u.members))) λ index _.
        Yields-lift (ok_or (get_elem? u.members index) "Missing value") λ n e.
          All-get_elem? (λ n. contains u.members n ≡ true) u.members index (All-contains u.members)
            (ok_or-eq-ok (get_elem? u.members index) _ e)

  typename_of-TypenameOf :
      (type_name : String) (u : Option UnionType)
      → Yields
          (λ v. (n : String) × (v ≡ Json.string n) × TypenameOf cfg schema type_name u n)
          (typename_of R cfg schema type_name u)
  typename_of-TypenameOf type_name none =
      Yields-pure (Json.string type_name) (type_name, refl, refl)
  typename_of-TypenameOf type_name (some u) =
      Yields-bind _ _ (arbitrary_union_member-contains u)
        λ n h. Yields-pure (Json.string n) (n, refl, h)

  pub typename-TypenameOk :
      (type_name : String)
      → Yields
          (λ v. (n : String) × (v ≡ Json.string n) × TypenameOk cfg schema type_name n)
          (typename R cfg schema type_name)
  unfolding typename
  typename-TypenameOk type_name = typename_of-TypenameOf type_name (union_type schema type_name)
