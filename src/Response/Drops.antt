-- ===== src/Response/Drops.antt =====
-- The keys that `generate_response` of src/handle/graphql.rs drops from the data.
use subgraph_mock.Base.{
  ℕ, suc, ◌≤◌, ◌≡◌, refl, sym, ap, ◌∙◌, false, inl, inr, Bool-cases, String, none, List, [], ◌∷◌,
  Dict, lookup, keys, contains, Distinct, NodupKeys, length, arith, eq_iff, if◌then◌else◌,
}
use subgraph_mock.Json.{Json}
use subgraph_mock.Random.{Random, IsLawful, IsSample, IsOrder}
use subgraph_mock.Random.Yields.{Yields, Yields-pure, Yields-bind, Yields-draw, Yields-random_range}
use subgraph_mock.Response.{to_set, drop_keys, fail_fields, partial_response}
use subgraph_mock.Response.Spec.{Splits}

pub contains-to_set : (l : List String) (k : String) → contains (to_set l) k ≡ contains l k
unfolding to_set
contains-to_set [] k = refl
contains-to_set (j ∷ l) k = ground (arith, eq_iff j k, contains-to_set l j, contains-to_set l k)

pub Distinct-to_set : (l : List String) → Distinct (to_set l)
unfolding to_set
Distinct-to_set [] = tt
Distinct-to_set (j ∷ l) = elim (Bool-cases (contains (to_set l) j)) [
  | inl again ↦ rw again (Distinct-to_set l)
  | inr new ↦ rw new (new, Distinct-to_set l)
]

-- Items that are different are a set as they are.
pub to_set_same : (l : List String) → Distinct l → to_set l ≡ l
unfolding to_set
to_set_same [] h = refl
to_set_same (j ∷ l) h = rw (to_set_same l h.1, h.0) refl

module _ {ℓ} {V : Type ℓ} where
  pub Distinct-keys : (m : Dict V) → NodupKeys m → Distinct (keys m)
  unfolding keys
  Distinct-keys [] h = tt
  Distinct-keys ((k, v) ∷ m) h = (h.0, Distinct-keys m h.1)

  pub length-keys : (m : Dict V) → length (keys m) ≡ length m
  unfolding keys
  length-keys [] = refl
  length-keys ((k, v) ∷ m) = ap suc (length-keys m)

  pub lookup-drop_keys :
      (ks : List String) (m : Dict V) (k : String)
      → lookup k (drop_keys ks m) ≡ (if contains ks k then none else lookup k m)
  unfolding lookup drop_keys
  lookup-drop_keys ks [] k = ground arith
  lookup-drop_keys ks ((j, v) ∷ m) k = ground (arith, eq_iff j k, lookup-drop_keys ks m k)

  absent-drop_keys :
      (ks : List String) (m : Dict V) (k : String)
      → contains (keys m) k ≡ false
      → contains (keys (drop_keys ks m)) k ≡ false
  unfolding keys drop_keys
  absent-drop_keys ks [] k h = refl
  absent-drop_keys ks ((j, v) ∷ m) k h = ground (arith, absent-drop_keys ks m k)

  pub drop_keys-NodupKeys :
      (ks : List String) (m : Dict V) → NodupKeys m → NodupKeys (drop_keys ks m)
  unfolding keys drop_keys
  drop_keys-NodupKeys ks [] h = tt
  drop_keys-NodupKeys ks ((j, v) ∷ m) h = elim (Bool-cases (contains ks j)) [
    | inl dropped ↦ rw dropped (drop_keys-NodupKeys ks m h.1)
    | inr kept ↦ rw kept (absent-drop_keys ks m j h.0, drop_keys-NodupKeys ks m h.1)
  ]

module _ (R : Random) (law : IsLawful R) where
  sample-Splits :
      (d : Dict Json) (n : ℕ) (picked failed : List String)
      → NodupKeys d
      → 1 ≤ n
      → IsSample n (keys d) picked
      → IsOrder (to_set picked) failed
      → Splits d (drop_keys (to_set picked) d) failed
  sample-Splits d n picked failed distinct least sample order = record {
    distinct = order.distinct;
    some_fail =
        omega (arith, order.size, ap length (to_set_same picked sample.distinct), sample.size);
    are_keys = λ k h. sample.within k (sym (contains-to_set picked k) ∙ sym (order.same k) ∙ h);
    kept_distinct = drop_keys-NodupKeys (to_set picked) d distinct;
    kept_values = λ k.
        lookup-drop_keys (to_set picked) d k
        ∙ ap (λ b. if b then none else lookup k d) (sym (order.same k));
  }

  pub Yields-fail_fields :
      (d : Dict Json)
      → NodupKeys d
      → Yields
          (λ v.
            (kept : Dict Json) × (failed : List String) × (v ≡ partial_response kept failed)
            × Splits d kept failed)
          (fail_fields R d)
  unfolding fail_fields
  Yields-fail_fields d distinct = Yields-bind _ _ (Yields-random_range R law 1 (length d)) λ n h.
      Yields-bind _ _
        (Yields-draw {P = IsSample n (keys d)} (R.sample n (keys d))
          (λ s. law.sample_lem n (keys d) s (Distinct-keys d distinct) (rw (length-keys d) h.1)))
        λ picked sample.
          Yields-bind _ _
            (Yields-draw {P = IsOrder (to_set picked)} _
              (λ s. law.set_order_lem s (to_set picked) (Distinct-to_set picked)))
            λ failed order.
              Yields-pure _
                (_, failed, refl, sample-Splits d n picked failed distinct h.0 sample order)
