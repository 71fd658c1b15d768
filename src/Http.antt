-- ===== src/Http.antt =====
-- The parts of `hyper` that the program uses: header maps, whose operations are given, and responses.
use subgraph_mock.Base.{
  ℕ, ◌≡◌, false, String, Option, none, some, List, [], ◌∷◌, ◌++◌, Dict, lookup, keys, contains,
  unwrap_or, ◌==◌,
}

-- `HeaderMap<HeaderValue>`, with names in lower case.
pub record HeaderOps : Type 1 where
  pub HeaderMap : Type 0
  -- `HeaderMap::new`, `get_all`, `insert` and `into_iter`
  pub empty : HeaderMap
  pub get_all : String → HeaderMap → List String
  pub insert : String → String → HeaderMap → HeaderMap
  pub into_iter : HeaderMap → List (Option String × String)

abbrev pub unnamed : List String → List (Option String × String)
unnamed [] = []
unnamed (value ∷ values) = (none, value) ∷ unnamed values

-- Names with their values, each name only with its first value.
abbrev pub in_order : Dict (List String) → List (Option String × String)
in_order [] = []
in_order ((name, []) ∷ headers) = in_order headers
in_order ((name, value ∷ values) ∷ headers) =
    (some name, value) ∷ unnamed values ++ in_order headers

-- No name comes twice, and each has a value.
abbrev pub IsMultimap : Dict (List String) → Type 0
IsMultimap [] = Unit
IsMultimap ((name, []) ∷ headers) = ⊥
IsMultimap ((name, value ∷ values) ∷ headers) =
    (contains (keys headers) name ≡ false) × IsMultimap headers

-- What is iterated over: the values of each name, one name after the other.
pub record IsIterated (H : HeaderOps) (headers : H.HeaderMap) : Type 0 where
  pub entries : Dict (List String)
  pub multimap : IsMultimap entries
  pub ordered : H.into_iter headers ≡ in_order entries
  pub values : (k : String) → H.get_all k headers ≡ unwrap_or (lookup k entries) []

-- What the documentation of `HeaderMap` promises.
pub record IsHeaderOps (H : HeaderOps) : Type 0 where
  pub get_all-empty : (k : String) → H.get_all k H.empty ≡ []
  pub get_all-insert_same :
      (k v : String) (m : H.HeaderMap) → H.get_all k (H.insert k v m) ≡ (v ∷ [])
  pub get_all-insert_other :
      (j k v : String) (m : H.HeaderMap)
      → k == j ≡ false
      → H.get_all j (H.insert k v m) ≡ H.get_all j m
  pub iterated : (m : H.HeaderMap) → IsIterated H m

-- `ByteResponse`
pub record Response (HeaderMap : Type 0) : Type 0 where
  pub status : ℕ
  pub headers : HeaderMap
  pub body : String

-- `Response::new`, with a status.
abbrev pub plain : (H : HeaderOps) → ℕ → String → Response H.HeaderMap
plain H status body = record { status = status; headers = H.empty; body = body }
