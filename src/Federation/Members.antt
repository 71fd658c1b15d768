-- ===== src/Federation/Members.antt =====
-- The members of the `_Entity` union of src/state/schema/federation/mod.rs.
use mathlib.Core.Option.{some-injective}
use subgraph_mock.Base.{
  ok-injective, String, Bool, true, false, ◌≡◌, refl, ◌∙◌, sym, ap, Option, some, List, [], ◌∷◌,
  Dict, lookup, keys, NodupKeys, contains, Outcome, ok, ◌>>=◌, ◌==◌, ◌&&◌, ◌||◌, arith,
  if◌then◌else◌, >>=-eq-ok, Bool-cases, inl, inr, eq_iff, ◌↔◌, lookup-some-contains,
}
use subgraph_mock.Schema.{ConstValue, Directive, ExtendedType, Schema}
use subgraph_mock.Federation.{is_object, is_federated_type, federated_members}

absurd_member {ℓ} :
    {P : Type ℓ} (n : String) {members : List String} → [] ≡ members → contains members n ≡ true → P
absurd_member n none_there h = let absurd = ap (λ l. contains l n) none_there ∙ h in cc

not_again :
    (types : Dict ExtendedType) {name : String} (n : String) (ms : List String)
    → (contains ms n ≡ true → (ty : ExtendedType) × (lookup n types ≡ some ty))
    → name ≡ n
    → contains (keys types) name ≡ false
    → contains ms n ≡ false
not_again types n ms to same fresh = elim (Bool-cases (contains ms n)) [
  | inl there ↦
      let (ty, found) = to there in
      let again = lookup-some-contains n types found in
      let never = ap (contains (keys types)) (sym same) ∙ fresh in cc
  | inr absent ↦ absent
]

-- Of a name and the rest, where the rest has it not.
only_first : (b : Bool) {c d : Bool} → c ≡ true → d ≡ false → ((b && c) || d) ≡ true → b ≡ true
only_first b at_name absent h = ground arith

first : (b c d : Bool) → b ≡ true → c ≡ true → ((b && c) || d) ≡ true
first b c d chosen at_name = ground arith

rest_only : (b : Bool) {c d : Bool} → c ≡ false → ((b && c) || d) ≡ d
rest_only b elsewhere = ground arith

counted : {b : Bool} {m : Outcome Bool} → m ≡ ok b → m ≡ ok true → b ≡ true
counted h e = cc

module _ (argument_by_name : Directive → String → Schema → Option ConstValue)
    (schema : Schema) where
  -- An object type of the schema that is federated.
  abbrev pub IsEntity : Dict ExtendedType → String → Type 0
  IsEntity types n =
      (ty : ExtendedType) × (lookup n types ≡ some ty)
      × (is_object ty ≡ true)
      × (is_federated_type argument_by_name schema ty ≡ ok true)

  abbrev counts : ExtendedType → Outcome Bool
  counts ty = if is_object ty then is_federated_type argument_by_name schema ty else ok false

  counts-IsEntity :
      (ty : ExtendedType)
      → counts ty ≡ ok true
      → (is_object ty ≡ true) × (is_federated_type argument_by_name schema ty ≡ ok true)
  counts-IsEntity ty h = elim (Bool-cases (is_object ty)) [
    | inl object ↦ (object, rw object at h)
    | inr no_object ↦ let no_type = rw no_object at h in cc
  ]

  IsEntity-counts :
      (ty : ExtendedType)
      → is_object ty ≡ true
      → is_federated_type argument_by_name schema ty ≡ ok true
      → counts ty ≡ ok true
  IsEntity-counts ty object federated = rw object federated

  contains-members :
      (b : Bool) (name n : String) (ms : List String) {members : List String}
      → ok (if b then name ∷ ms else ms) ≡ ok members
      → contains members n ≡ ((b && (name == n)) || contains ms n)
  contains-members true name n ms h = ap (λ l. contains l n) (sym (ok-injective h))
  contains-members false name n ms h = ap (λ l. contains l n) (sym (ok-injective h))

  -- The names of a schema's object types that are federated, each of them and no other: what
  -- `federated_members` returns where the types have distinct names.
  pub federated_members_lem :
      (types : Dict ExtendedType) {members : List String}
      → NodupKeys types
      → federated_members argument_by_name schema types ≡ ok members
      → (n : String) → (contains members n ≡ true) ↔ IsEntity types n
  unfolding federated_members lookup
  federated_members_lem [] distinct h n =
      (λ e. absurd_member n (ok-injective h) e, λ entity. let absent = entity.1 in cc)
  federated_members_lem ((name, ty) ∷ types) {members} distinct h n =
      let (b, e1, h2) =
        >>=-eq-ok (counts ty)
          (λ federated. federated_members argument_by_name schema types >>= λ ms.
            ok (if federated then name ∷ ms else ms))
          h in
      let (ms, e2, h3) =
        >>=-eq-ok (federated_members argument_by_name schema types)
          (λ ms. ok (if b then name ∷ ms else ms)) h2 in
      let (to, from) = federated_members_lem types distinct.1 e2 n in
      let member = contains-members b name n ms {members = members} h3 in
      elim (Bool-cases (name == n)) [
        | inl same ↦
            let absent =
              not_again types n ms (λ e. ((to e).0, (to e).1)) ((eq_iff name n).0 same)
                distinct.0 in
            rw same (
              (λ e.
                  let (o, f) =
                    counts-IsEntity ty (e1 ∙ ap ok (only_first b same absent (sym member ∙ e))) in
                  (ty, refl, o, f)),
              λ (t, l, o, f).
                  member
                  ∙ first b _ _
                      (counted e1 (ap counts (some-injective _ _ l) ∙ IsEntity-counts t o f)) same,
            )
        | inr differ ↦ rw differ (
          (λ e. to (sym (rest_only b differ) ∙ sym member ∙ e)),
          λ entity. member ∙ rest_only b differ ∙ from entity,
        )
      ]
