-- ===== src/Tests/Sample.antt =====
-- Small inputs that the tests share: an environment that draws from a counter, a schema and a
-- document.
use subgraph_mock.Base.{
  Outcome, zero, suc, ◌≤◌, false, List, take, length, contains, Distinct, ℕ, ◌+◌, ◌-◌, ◌%◌, ◌≡◌,
  refl, true, String, none, some, [], ◌∷◌, arith, ok, ltb, eqb, leb_ℤ, ℤ, leb_f64, panic,
  if◌then◌else◌, Bool-cases, inl, inr, ap, sym, ok-injective,
}
use subgraph_mock.Schema
use subgraph_mock.Schema.{Ty, FederatedSchema, ExtendedType, named, non_null_named, list}
use subgraph_mock.Document.{
  Selections, make, of_field, fragment_spread, done, select, SelectionSet, Document,
}
use subgraph_mock.Random.{Random, IsLawful, IsSample}
use subgraph_mock.Generation.{ResponseGenerationConfig, default_generation}

-- The lower bound, if the bounds are in order.
abbrev least_float : ℕ → ℕ → ℕ → Outcome (ℕ × ℕ)
least_float lo hi s = if leb_f64 lo hi then ok (lo, s + 1) else panic

abbrev pub counter : Random
counter = record {
  State = ℕ;
  ratio = λ n d s. (ltb (s % d) n, s + 1);
  range = λ lo hi s. (lo + s % (hi - lo + 1), s + 1);
  int_range = λ lo hi s. (lo, s + 1);
  coin = λ s. (eqb (s % 2) 0, s + 1);
  float_range = least_float;
  alphanumeric = λ s. ("a", s + 1);
  choose = λ n s. (s % n, s + 1);
  sample = λ n items s. (take n items, s + 1);
  set_order = λ s items. items;
  iteration = λ s m. m;
  resume = λ s. s + 1;
}

leb_f64_refl : (a b : ℕ) → leb_f64 a b ≡ true → leb_f64 a a ≡ true
leb_f64_refl a b h = ground arith

counter-float_range :
    (lo hi s : ℕ) {bits s' : ℕ}
    → least_float lo hi s ≡ ok (bits, s')
    → (leb_f64 lo bits ≡ true) × (leb_f64 bits hi ≡ true)
counter-float_range lo hi s {bits} e = elim (Bool-cases (leb_f64 lo hi)) [
  | inl ordered ↦
      let same : lo ≡ bits = ap (λ r. r.0) (ok-injective (rw ordered at e)) in
      rw (sym same) (leb_f64_refl lo hi ordered, ordered)
  | inr unordered ↦ let never = rw unordered at e in cc
]

leb_ℤ_refl : (a : ℤ) → leb_ℤ a a ≡ true
leb_ℤ_refl a = ground arith

contains-take :
    (n : ℕ) (items : List String) (k : String)
    → contains (take n items) k ≡ true
    → contains items k ≡ true
contains-take zero items k h = cc
contains-take (suc n) [] k h = cc
contains-take (suc n) (i ∷ items) k h = ground (arith, contains-take n items k)

absent-take :
    (n : ℕ) (items : List String) (k : String)
    → contains items k ≡ false
    → contains (take n items) k ≡ false
absent-take zero items k h = refl
absent-take (suc n) [] k h = refl
absent-take (suc n) (i ∷ items) k h = ground (arith, absent-take n items k)

Distinct-take : (n : ℕ) (items : List String) → Distinct items → Distinct (take n items)
Distinct-take zero items h = tt
Distinct-take (suc n) [] h = tt
Distinct-take (suc n) (i ∷ items) h = (absent-take n items i h.0, Distinct-take n items h.1)

length-take : (n : ℕ) (items : List String) → n ≤ length items → length (take n items) ≡ n
length-take zero items h = refl
length-take (suc n) [] h = absurd (omega arith)
length-take (suc n) (i ∷ items) h = omega (arith, length-take n items (omega arith))

take-IsSample :
    (n : ℕ) (items : List String)
    → Distinct items
    → n ≤ length items
    → IsSample n items (take n items)
take-IsSample n items distinct le = record {
  distinct = Distinct-take n items distinct;
  within = contains-take n items;
  size = length-take n items le;
}

pub counter-IsLawful : IsLawful counter
counter-IsLawful = record {
  range_bounds = λ lo hi s h. (omega arith, omega arith);
  int_range_bounds = λ lo hi s h. (leb_ℤ_refl lo, h);
  float_range_bounds = λ lo hi s e. counter-float_range lo hi s e;
  choose_bounds = λ n s h. omega arith;
  sample_lem = λ n items s h le. take-IsSample n items h le;
  set_order_lem = λ s items h. record { distinct = h; same = λ k. refl; size = refl };
  iteration_lem = λ s. record { distinct = λ m h. h; entry = λ m h k. refl };
}

abbrev scalar_type : String → ExtendedType
scalar_type n = ExtendedType.scalar (record { description = none; name = n; directives = [] })

abbrev declared : String → String × Schema.EnumValueDefinition
declared n = (n, record { description = none; value = n; directives = [] })

abbrev pub schema : FederatedSchema
schema = record {
  valid = record {
    schema_definition = record { query = some "Query"; mutation = none; subscription = none };
    directive_definitions = [];
    types =
        ("String", scalar_type "String")
        ∷ (
          "Color",
          ExtendedType.enum (record {
            description = none;
            name = "Color";
            directives = [];
            values = declared "RED" ∷ declared "BLUE" ∷ [];
          }),
        )
        ∷ (
          "Pet",
          ExtendedType.union (record {
            description = none;
            name = "Pet";
            directives = [];
            members = "Cat" ∷ "Dog" ∷ [];
          }),
        )
        ∷ [];
  };
  source = "type Query";
}

abbrev leaf : String → Ty → Selections → Selections
leaf n t rest = select (of_field (make none n t "" done)) rest

-- fragment Names on User { name nick: name }
abbrev pub names : Selections
names =
    leaf "name" (non_null_named "String")
      (select (of_field (make (some "nick") "name" (named "String") "" done)) done)

abbrev pub document : Document
document = record {
  operations = [];
  fragments = ("Names", record { ty = "User"; selections = names }) ∷ [];
}

-- { user { ...Names } colors user { pet { __typename } } }
abbrev pub query : SelectionSet
query = record {
  ty = "Query";
  selections =
      select
        (of_field
          (make none "user" (non_null_named "User") "User" (select (fragment_spread "Names") done)))
        (leaf "colors" (list (named "Color")) (
          select
            (of_field (
              make none "user" (non_null_named "User") "User" (
                select
                  (of_field (
                    make none "pet" (non_null_named "Pet") "Pet"
                      (leaf "__typename" (non_null_named "String") done)))
                  done)))
            done));
}

abbrev pub cfg : ResponseGenerationConfig
cfg = default_generation
