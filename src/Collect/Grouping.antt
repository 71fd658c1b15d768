-- ===== src/Collect/Grouping.antt =====
-- A map groups a list of fields if each key has the fields with that response key, in order.
use mathlib.Core.List.{append-nil}
use subgraph_mock.Base.{
  String, ◌≡◌, refl, sym, ◌∙◌, Bool, true, false, inl, inr, Bool-cases, Option, none, some, List,
  [], ◌∷◌, ◌++◌, lookup, lookup_absent, differ_comm, NodupKeys, keys, contains, arith, eq_iff, ◌==◌,
  if◌then◌else◌,
}
use subgraph_mock.Document.{Field, response_key}
use subgraph_mock.Collect.{Groups, extend_entry, append_groups}
use subgraph_mock.Collect.Reference.{with_key, present}

pub record IsGrouping (m : Groups) (fields : List Field) : Type 0 where
  pub distinct : NodupKeys m
  pub entry : (k : String) → lookup k m ≡ present (with_key k fields)

-- Any order of iteration over a hash map: each key comes once, with its value.
pub record IsIteration (iter : Groups → List (String × List Field)) : Type 0 where
  pub distinct : (m : Groups) → NodupKeys m → NodupKeys (iter m)
  pub entry : (m : Groups) → NodupKeys m → (k : String) → lookup k (iter m) ≡ lookup k m

-- What a key holds after `new` is appended to `old`.
abbrev join : Option (List Field) → Option (List Field) → Option (List Field)
join none new = new
join (some old) none = some old
join (some old) (some new) = some (old ++ new)

join-present : (xs ys : List Field) → join (present xs) (present ys) ≡ present (xs ++ ys)
join-present [] ys = refl
join-present (x ∷ xs) [] = rw append-nil
join-present (x ∷ xs) (y ∷ ys) = refl

join-none : (old : Option (List Field)) → join old none ≡ old
join-none none = refl
join-none (some old) = refl

with_key-append :
    (k : String) (xs ys : List Field) → with_key k (xs ++ ys) ≡ with_key k xs ++ with_key k ys
with_key-append k [] ys = refl
with_key-append k (x ∷ xs) ys = ground (arith, with_key-append k xs ys)

lookup-extend_entry :
    (k j : String) (new : List Field) (m : Groups)
    → lookup j (extend_entry k new m)
      ≡ (if k == j then join (lookup k m) (some new) else lookup j m)
unfolding lookup extend_entry
lookup-extend_entry k j new [] = refl
lookup-extend_entry k j new ((i, old) ∷ m) =
    ground (arith, eq_iff k j, eq_iff i k, eq_iff i j, lookup-extend_entry k j new m)

contains-keys-extend_entry :
    (k j : String) (new : List Field) (m : Groups)
    → k == j ≡ false
    → contains (keys (extend_entry k new m)) j ≡ contains (keys m) j
unfolding keys extend_entry
contains-keys-extend_entry k j new [] h = ground arith
contains-keys-extend_entry k j new ((i, old) ∷ m) h =
    ground (arith, eq_iff k j, eq_iff i k, eq_iff i j, contains-keys-extend_entry k j new m h)

NodupKeys-extend_entry :
    (k : String) (new : List Field) (m : Groups) → NodupKeys m → NodupKeys (extend_entry k new m)
unfolding keys extend_entry
NodupKeys-extend_entry k new [] h = (refl, tt)
NodupKeys-extend_entry k new ((i, old) ∷ m) h = elim (Bool-cases (i == k)) [
  | inl same ↦ rw same h
  | inr differ ↦ rw differ (
    contains-keys-extend_entry k i new m (differ_comm i k differ) ∙ h.0,
    NodupKeys-extend_entry k new m h.1,
  )
]

NodupKeys-append_groups : (groups m : Groups) → NodupKeys m → NodupKeys (append_groups groups m)
unfolding append_groups
NodupKeys-append_groups [] m h = h
NodupKeys-append_groups ((k, fields) ∷ groups) m h =
    NodupKeys-append_groups groups (extend_entry k fields m) (NodupKeys-extend_entry k fields m h)

join-if :
    (b : Bool) (old_k old_j new_j : Option (List Field)) (fields : List Field)
    → (b ≡ true → (old_k ≡ old_j) × (new_j ≡ none))
    → join (if b then join old_k (some fields) else old_j) new_j
      ≡ join old_j (if b then some fields else new_j)
join-if true old_k old_j new_j fields h =
    let (same, absent) = h refl in rw (same, absent) (join-none (join old_j (some fields)))
join-if false old_k old_j new_j fields h = refl

lookup-append_groups :
    (j : String) (groups m : Groups)
    → NodupKeys groups
    → lookup j (append_groups groups m) ≡ join (lookup j m) (lookup j groups)
unfolding append_groups
lookup-append_groups j [] m h = unfold lookup in sym (join-none (lookup j m))
lookup-append_groups j ((k, fields) ∷ groups) m h =
    lookup-append_groups j groups (extend_entry k fields m) h.1
    ∙ rw (lookup-extend_entry k j fields m) (
        unfold lookup in
        join-if (k == j) (lookup k m) (lookup j m) (lookup j groups) fields λ e.
          let p : k ≡ j = (eq_iff k j).0 e in (rw p refl, lookup_absent j groups (rw p at h.0)))

pub IsGrouping-nil : IsGrouping [] []
IsGrouping-nil = record { distinct = tt; entry = λ k. unfold lookup in refl }

-- Appending the groups of some fields to a grouping appends the fields.
pub IsGrouping-append_groups :
    {groups m : Groups} {new fields : List Field}
    → IsGrouping groups new
    → IsGrouping m fields
    → IsGrouping (append_groups groups m) (fields ++ new)
IsGrouping-append_groups {groups} {m} {new} {fields} g h = record {
  distinct = NodupKeys-append_groups groups m h.distinct;
  entry = λ k.
      lookup-append_groups k groups m g.distinct
      ∙ rw (g.entry k, h.entry k, join-present, with_key-append) refl;
}

IsGrouping-one : (f : Field) → IsGrouping ((response_key f, f ∷ []) ∷ []) (f ∷ [])
unfolding lookup keys
IsGrouping-one f = record { distinct = (refl, tt); entry = λ k. ground arith }

pub IsGrouping-extend_entry :
    {m : Groups} {fields : List Field} (f : Field)
    → IsGrouping m fields
    → IsGrouping (extend_entry (response_key f) (f ∷ []) m) (fields ++ f ∷ [])
unfolding append_groups
IsGrouping-extend_entry f h =
    IsGrouping-append_groups {groups = (response_key f, f ∷ []) ∷ []} (IsGrouping-one f) h

pub IsGrouping-iter :
    (iter : Groups → List (String × List Field)) {m : Groups} {fields : List Field}
    → IsIteration iter
    → IsGrouping m fields
    → IsGrouping (iter m) fields
IsGrouping-iter iter {m} law h = record {
  distinct = law.distinct m h.distinct;
  entry = λ k. law.entry m h.distinct k ∙ h.entry k;
}
