-- ===== src/Routing/Routes.antt =====
-- Which requests `handle_request` of src/handle/mod.rs takes for which subgraph.
use Prim.Native.Char.{Char, len_utf8}
use Prim.Native.String.len
use Prim.Native.String as Text
use Prim.Native.String.{[], ◌∷◌, ◌++◌, len}
use text.Mathlib.Text.{starts_with}
use text.Mathlib.TextEquality.{Char-path, starts_with_iff}
use text.Mathlib.TextBridge.{IsPrefix}
use text.Mathlib.TextPositions.{starts_with-append, len-append, len_utf8-pos}
use text.Mathlib.TextLemmas.{nil-append, cons-append}
use mathlib.Core.Path.{subst}
use subgraph_mock.Base.{
  ◌+◌, ◌<◌, ◌≡◌, ◌↔◌, refl, sym, ap, ◌∙◌, String, Bool, true, false, ◌&&◌, List, [], ◌∷◌, ltb,
  eqb_iff, ok, ok-injective, inl, inr, Bool-cases, arith, eq_iff, if◌then◌else◌,
}
use subgraph_mock.Routing.{
  Method, post, other_method, Route, to_subgraph, to_server, unexpected, is_slash, split_slash,
  route_of,
}

-- A segment of a path: it has no slash.
abbrev pub IsSegment : String → Type 0
IsSegment [] = Unit
IsSegment (c ∷ s) = (is_slash c ≡ false) × IsSegment s

-- What may follow a segment: nothing, or a slash and anything.
abbrev pub Follows : String → Type 0
Follows [] = Unit
Follows (c ∷ s) = is_slash c ≡ true

-- The routes, told by the parts of a path.
pub data IsRoute : Method → String → Route → Type 0 where
  first_segment :
      (name tail : String)
      → IsSegment name
      → Follows tail
      → 0 < len (name ++ tail)
      → IsRoute post ("/" ++ (name ++ tail)) (to_subgraph name)
  only_slash : IsRoute post "/" to_server
  relative : (path : String) → (IsPrefix "/" path → ⊥) → IsRoute post path unexpected
  not_post : (name path : String) → IsRoute (other_method name) path unexpected

abbrev slash_char : Char
slash_char = Text.char_at "/" 0

is_slash-eq : (c : Char) → is_slash c ≡ true → c ≡ slash_char
is_slash-eq c h = Char-path c slash_char ((eqb_iff _ _).0 h)

split_slash-slash : (s : String) → split_slash ("/" ++ s) ≡ ("" ∷ split_slash s)
unfolding split_slash
split_slash-slash s = rw (cons-append slash_char "" s, nil-append s) refl

split_slash-longer :
    (c : Char) (s : String) {part : String} {parts : List String}
    → is_slash c ≡ false
    → split_slash s ≡ (part ∷ parts)
    → split_slash (c ∷ s) ≡ ((c ∷ part) ∷ parts)
unfolding split_slash
split_slash-longer c s h e = rw (h, e) refl

split_slash-segment :
    (name tail : String)
    → IsSegment name
    → Follows tail
    → (rest : List String) × (split_slash (name ++ tail) ≡ (name ∷ rest))
split_slash-segment [] [] segment follows = ([], unfold split_slash in refl)
split_slash-segment [] (c ∷ tail) segment follows =
    (split_slash tail, rw (nil-append (c ∷ tail)) (unfold split_slash in rw follows refl))
split_slash-segment (c ∷ name) tail segment follows =
    let (rest, e) = split_slash-segment name tail segment.1 follows in
    (rest, rw (cons-append c name tail) (split_slash-longer c (name ++ tail) segment.0 e))

-- Every text begins with a segment.
first_part :
    (s : String)
    → (name : String) × (tail : String) × IsSegment name × Follows tail × (s ≡ name ++ tail)
first_part [] = ("", "", tt, tt, refl)
first_part (c ∷ s) = elim (Bool-cases (is_slash c)) [
  | inl h ↦ ("", c ∷ s, tt, h, sym (nil-append (c ∷ s)))
  | inr h ↦
      let (name, tail, segment, follows, e) = first_part s in
      (c ∷ name, tail, (h, segment), follows, ap (λ t. c ∷ t) e ∙ sym (cons-append c name tail))
]

long_route : (s : String) → 0 < len s → ltb 1 (len ("/" ++ s)) ≡ true
long_route s h = rw (len-append "/" s) (ground arith)

if_relative :
    {A : Type 0} (a b c : Bool) (x y z : A)
    → b ≡ false
    → c ≡ false
    → (if a && b then x else if c then y else z) ≡ z
if_relative a b c x y z h k = ground arith

is_false : (b : Bool) → (b ≡ true → ⊥) → b ≡ false
is_false b h = ground (arith, h)

IsRoute-route_of :
    {m : Method} {path : String} {r : Route} → IsRoute m path r → route_of m path ≡ ok r
unfolding route_of
IsRoute-route_of (first_segment name tail segment follows some_more) =
    let (rest, e) = split_slash-segment name tail segment follows in
    rw
      (
        long_route (name ++ tail) some_more,
        starts_with-append "/" (name ++ tail),
        split_slash-slash (name ++ tail),
        e,
      )
      refl
IsRoute-route_of only_slash = refl
IsRoute-route_of (relative path h) =
    if_relative _ _ _ _ _ _ (is_false _ λ e. h ((starts_with_iff path "/").0 e))
      (is_false _ λ e. h ("", (sym ((eq_iff path "/").0 e))))
IsRoute-route_of (not_post name path) = refl

segment_route :
    (s name tail : String)
    → 0 < len s
    → IsSegment name
    → Follows tail
    → s ≡ name ++ tail
    → (r : Route) × IsRoute post ("/" ++ s) r
segment_route s name tail some_more segment follows e =
    (to_subgraph name, rw e (first_segment name tail segment follows (rw e at some_more)))

len-cons_pos : (c : Char) (s : String) → 0 < len (c ∷ s)
len-cons_pos c s =
    let (k, width) = len_utf8-pos c in
    let parts : len (c ∷ s) ≡ len_utf8 c + len s = len.cons c s in omega (arith, parts, width)

slash_route : (s : String) → (r : Route) × IsRoute post ("/" ++ s) r
slash_route [] = (to_server, only_slash)
slash_route (c ∷ s) =
    let (name, tail, segment, follows, e) = first_part (c ∷ s) in
    segment_route (c ∷ s) name tail (len-cons_pos c s) segment follows e

not_both : {b : Bool} → b ≡ false → b ≡ true → ⊥
not_both h k = cc

has_route : (m : Method) (path : String) → (r : Route) × IsRoute m path r
has_route (other_method name) path = (unexpected, not_post name path)
has_route post path = elim (Bool-cases (starts_with path "/")) [
  | inl h ↦
      let (s, e) = (starts_with_iff path "/").0 h in
      let (r, route) = slash_route s in (r, subst (λ x. IsRoute post x r) e route)
  | inr h ↦ (unexpected, relative path λ is. not_both h ((starts_with_iff path "/").1 is))
]

-- Every request has a route, which is found without a panic, and it is the only one that its method
-- and its path have: a POST to `/`, a name without slashes and then nothing or a further slash goes
-- to the subgraph of that name, which may be empty only before a slash; a POST to `/` goes to the
-- server; and every other request is unexpected.
pub route_of_lem :
    (m : Method) (path : String)
    → (r : Route) × (route_of m path ≡ ok r) × ((r' : Route) → IsRoute m path r' ↔ (r' ≡ r))
route_of_lem m path =
    let (r, route) = has_route m path in
    (
      r,
      IsRoute-route_of route,
      λ r'. (
        λ other. ok-injective (sym (IsRoute-route_of other) ∙ IsRoute-route_of route),
        λ e. rw e route,
      ),
    )
