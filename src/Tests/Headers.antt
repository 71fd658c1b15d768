-- ===== src/Tests/Headers.antt =====
-- Header maps as lists of names with their values, of which the first entry of a name counts, and the
-- headers of a small configuration.
use text.Mathlib.TextPositions.{eq_refl}
use subgraph_mock.Base.{
  ◌≡◌, refl, String, false, List, [], ◌∷◌, Dict, lookup, keys, contains, unwrap_or, arith, ◌==◌,
  eq_iff, if◌then◌else◌, Bool-cases, inl, inr,
}
use subgraph_mock.Http.{HeaderOps, IsHeaderOps, IsMultimap, in_order}

abbrev without : String → Dict (List String) → Dict (List String)
without k [] = []
without k ((i, w) ∷ m) = let rest = without k m in if i == k then rest else (i, w) ∷ rest

abbrev tidy : Dict (List String) → Dict (List String)
tidy [] = []
tidy ((name, []) ∷ m) = tidy m
tidy ((name, value ∷ values) ∷ m) = (name, value ∷ values) ∷ without name (tidy m)

abbrev pub listed : HeaderOps
listed = record {
  HeaderMap = Dict (List String);
  empty = [];
  get_all = λ k m. unwrap_or (lookup k (tidy m)) [];
  insert = λ k v m. (k, v ∷ []) ∷ m;
  into_iter = λ m. in_order (tidy m);
}

lookup-without :
    (k j : String) (m : Dict (List String)) → k == j ≡ false → lookup j (without k m) ≡ lookup j m
unfolding lookup
lookup-without k j [] h = refl
lookup-without k j ((i, w) ∷ m) h = ground (arith, eq_iff i k, lookup-without k j m h)

contains-without : (k : String) (m : Dict (List String)) → contains (keys (without k m)) k ≡ false
unfolding keys
contains-without k [] = refl
contains-without k ((i, w) ∷ m) = ground (arith, contains-without k m)

absent-without :
    (k j : String) (m : Dict (List String))
    → contains (keys m) j ≡ false
    → contains (keys (without k m)) j ≡ false
unfolding keys
absent-without k j [] h = refl
absent-without k j ((i, w) ∷ m) h = ground (arith, absent-without k j m)

without-IsMultimap : (k : String) (m : Dict (List String)) → IsMultimap m → IsMultimap (without k m)
without-IsMultimap k [] h = tt
without-IsMultimap k ((i, []) ∷ m) h = absurd h
without-IsMultimap k ((i, value ∷ values) ∷ m) h = elim (Bool-cases (i == k)) [
  | inl same ↦ rw same (without-IsMultimap k m h.1)
  | inr differ ↦ rw differ (absent-without k i m h.0, without-IsMultimap k m h.1)
]

tidy-IsMultimap : (m : Dict (List String)) → IsMultimap (tidy m)
tidy-IsMultimap [] = tt
tidy-IsMultimap ((name, []) ∷ m) = tidy-IsMultimap m
tidy-IsMultimap ((name, value ∷ values) ∷ m) =
    (contains-without name (tidy m), without-IsMultimap name (tidy m) (tidy-IsMultimap m))

pub listed-IsHeaderOps : IsHeaderOps listed
unfolding lookup
listed-IsHeaderOps = record {
  get_all-empty = λ k. refl;
  get_all-insert_same = λ k v m. rw eq_refl refl;
  get_all-insert_other = λ j k v m h. rw (h, lookup-without k j (tidy m) h) refl;
  iterated = λ m. record {
    entries = tidy m;
    multimap = tidy-IsMultimap m;
    ordered = refl;
    values = λ k. refl;
  };
}
