-- ===== src/Base/Dicts.antt =====
-- Maps with `String` keys as association lists: `HashMap`, `BTreeMap`, `IndexMap` and the JSON
-- `Map`. `insert` keeps the place of a key that is present.
use Prim.Native.String.{String}
use mathlib.Core.Path.{◌≡◌, refl, ◌∙◌}
use mathlib.Core.Bool.{Bool, true, false, ◌||◌}
use mathlib.Core.Option.{Option, none, some, some-injective}
use mathlib.Core.List.{List, [], ◌∷◌}
use native.Mathlib.Omega.{arith}
use text.Mathlib.Text.{◌==◌}
use text.Mathlib.TextEquality.{eq_iff}
use text.Mathlib.TextPositions.{eq_refl}
use subgraph_mock.Base.Lists.{All, All-weaken}
use subgraph_mock.Base.Tests.{if◌then◌else◌, Bool-cases}
use mathlib.Core.Logic.{inl, inr}

abbrev pub Dict {ℓ} : Type ℓ → Type ℓ
Dict V = List (String × V)

abbrev pub contains : List String → String → Bool
contains [] k = false
contains (j ∷ js) k = j == k || contains js k

-- No name comes twice.
abbrev pub Distinct : List String → Type 0
Distinct [] = Unit
Distinct (k ∷ ks) = (contains ks k ≡ false) × Distinct ks

module _ {ℓ} {V : Type ℓ} where
  unfoldable pub lookup : String → Dict V → Option V
  lookup k [] = none
  lookup k ((j, v) ∷ m) = if j == k then some v else lookup k m

  unfoldable pub insert : String → V → Dict V → Dict V
  insert k v [] = (k, v) ∷ []
  insert k v ((j, w) ∷ m) = if j == k then (j, v) ∷ m else (j, w) ∷ insert k v m

  unfoldable pub keys : Dict V → List String
  keys [] = []
  keys ((j, v) ∷ m) = j ∷ keys m

  -- The value at a key after an insertion.
  pub lookup-insert :
      (key other : String) (value : V) (m : Dict V)
      → lookup other (insert key value m) ≡ (if key == other then some value else lookup other m)
  unfolding lookup insert
  lookup-insert key other value [] = refl
  lookup-insert key other value ((first, old) ∷ rest) = ground (
    arith,
    lookup-insert key other value rest,
    eq_iff first key,
    eq_iff first other,
    eq_iff key other,
  )

  pub contains-keys-insert :
      (k j : String) (v : V) (m : Dict V)
      → contains (keys (insert k v m)) j ≡ (k == j || contains (keys m) j)
  unfolding keys insert
  contains-keys-insert k j v [] = refl
  contains-keys-insert k j v ((i, w) ∷ m) =
      ground (arith, eq_iff k j, eq_iff i k, eq_iff i j, contains-keys-insert k j v m)

  -- No key comes twice.
  abbrev pub NodupKeys : Dict V → Type 0
  NodupKeys [] = Unit
  NodupKeys ((k, v) ∷ m) = (contains (keys m) k ≡ false) × NodupKeys m

  pub lookup_absent : (k : String) (m : Dict V) → contains (keys m) k ≡ false → lookup k m ≡ none
  unfolding lookup keys
  lookup_absent k [] h = refl
  lookup_absent k ((i, v) ∷ m) h = ground (arith, lookup_absent k m)

  pub lookup-some-contains :
      (k : String) (m : Dict V) {v : V} → lookup k m ≡ some v → contains (keys m) k ≡ true
  unfolding lookup keys
  lookup-some-contains k [] h = cc
  lookup-some-contains k ((i, w) ∷ m) {v} h = ground (arith, lookup-some-contains k m {v = v})

pub lookup-insert_other {ℓ} :
    {V : Type ℓ} (k j : String) (v : V) (m : Dict V)
    → j == k ≡ false
    → lookup k (insert j v m) ≡ lookup k m
lookup-insert_other k j v m h = lookup-insert j k v m ∙ rw h refl

pub lookup-insert_same {ℓ} :
    {V : Type ℓ} (k : String) (v : V) (m : Dict V) → lookup k (insert k v m) ≡ some v
lookup-insert_same k v m = lookup-insert k k v m ∙ rw eq_refl refl

-- `Extend::extend` of a map: every entry is inserted.
unfoldable pub extend {ℓ} : {V : Type ℓ} → Dict V → Dict V → Dict V
extend m [] = m
extend m ((k, v) ∷ more) = extend (insert k v m) more

-- The first of two options that has a value.
abbrev pub or_else {ℓ} : {A : Type ℓ} → Option A → Option A → Option A
or_else (some a) b = some a
or_else none b = b

or_else-if {ℓ} :
    {V : Type ℓ} (b : Bool) (new old : Option V) (v : V)
    → (b ≡ true → new ≡ none)
    → or_else new (if b then some v else old) ≡ or_else (if b then some v else new) old
or_else-if true new old v h = rw (h refl) refl
or_else-if false new old v h = refl

-- The entries that are added win.
pub lookup-extend {ℓ} :
    {V : Type ℓ} (k : String) (m more : Dict V)
    → NodupKeys more
    → lookup k (extend m more) ≡ or_else (lookup k more) (lookup k m)
unfolding extend
lookup-extend k m [] h = unfold lookup in refl
lookup-extend k m ((j, v) ∷ more) h =
    lookup-extend k (insert j v m) more h.1
    ∙ rw (lookup-insert j k v m) (
        unfold lookup in
        or_else-if (j == k) (lookup k more) (lookup k m) v
          λ e. lookup_absent k more (rw ((eq_iff j k).0 e) at h.0))

contains-cons : (x y : String) (l : List String) → contains l y ≡ true → contains (x ∷ l) y ≡ true
contains-cons x y l h = ground arith

-- Every item of a list is in it.
pub All-contains : (l : List String) → All (λ n. contains l n ≡ true) l
All-contains [] = tt
All-contains (x ∷ xs) =
    (rw eq_refl, All-weaken xs (All-contains xs) (λ y h. contains-cons x y xs h))

pub differ_comm : (i k : String) → i == k ≡ false → k == i ≡ false
differ_comm i k h = ground (arith, eq_iff i k, eq_iff k i)

pub insert-NodupKeys {ℓ} :
    {V : Type ℓ} (k : String) (v : V) (m : Dict V) → NodupKeys m → NodupKeys (insert k v m)
unfolding keys insert
insert-NodupKeys k v [] h = (refl, tt)
insert-NodupKeys k v ((i, w) ∷ m) h = elim (Bool-cases (i == k)) [
  | inl same ↦ rw same h
  | inr differ ↦ rw differ (
    contains-keys-insert k i v m ∙ rw (differ_comm i k differ, h.0) refl,
    insert-NodupKeys k v m h.1,
  )
]

abbrev pub is_some {ℓ} : {A : Type ℓ} → Option A → Bool
is_some none = false
is_some (some a) = true

-- The keys are those at which the map has a value.
pub contains-keys-lookup {ℓ} :
    {V : Type ℓ} (k : String) (m : Dict V) → contains (keys m) k ≡ is_some (lookup k m)
unfolding keys lookup
contains-keys-lookup k [] = refl
contains-keys-lookup k ((i, w) ∷ m) = ground (arith, contains-keys-lookup k m)

none_at {ℓ κ} :
    {V : Type ℓ} {P : Type κ} (k : String) (m : Dict V) {v : V}
    → contains (keys m) k ≡ false
    → lookup k m ≡ some v
    → P
none_at k m h e = let absent = lookup_absent k m h in cc

-- What holds of every value that a map with distinct keys has at a key holds of every entry.
pub All-entries {ℓ κ} :
    {V : Type ℓ} (P : String → V → Type κ) (m : Dict V)
    → NodupKeys m
    → ((k : String) (v : V) → lookup k m ≡ some v → P k v)
    → All (λ e. P e.0 e.1) m
unfolding lookup
All-entries P [] distinct h = tt
All-entries P ((i, w) ∷ m) distinct h = (
  h i w (rw eq_refl),
  All-entries P m distinct.1 λ k v e. h k v (elim (Bool-cases (i == k)) [
    | inl same ↦ none_at k m (rw ((eq_iff i k).0 same) at distinct.0) e
    | inr differ ↦ rw differ e
  ]),
)

-- What holds of every entry holds of what a lookup finds.
pub All-lookup {ℓ κ} :
    {V : Type ℓ} (P : V → Type κ) (m : Dict V) (k : String) {v : V}
    → All (λ e. P e.1) m
    → lookup k m ≡ some v
    → P v
unfolding lookup
All-lookup P [] k h e = cc
All-lookup P ((i, w) ∷ m) k {v} h e = elim (Bool-cases (i == k)) [
  | inl same ↦ rw (some-injective _ _ (rw same at e)) at h.0
  | inr differ ↦ All-lookup P m k h.1 (rw differ at e)
]
