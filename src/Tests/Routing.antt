-- ===== src/Tests/Routing.antt =====
-- Routes of some requests.
use subgraph_mock.Base.{◌≡◌, ◌↔◌, refl, ok}
use subgraph_mock.Routing.{
  post, other_method, Route, to_subgraph, to_server, unexpected, split_slash, route_of,
}
use subgraph_mock.Routing.Routes.{IsRoute, route_of_lem}

-- What follows the first segment is ignored.
post_users : route_of post "/users/graphql" ≡ ok (to_subgraph "users")
unfolding route_of split_slash
post_users = refl

-- An empty name, where a second slash comes at once.
post_slashes : route_of post "//users" ≡ ok (to_subgraph "")
unfolding route_of split_slash
post_slashes = refl

post_root : route_of post "/" ≡ ok to_server
unfolding route_of
post_root = refl

get_root : route_of (other_method "GET") "/" ≡ ok unexpected
unfolding route_of
get_root = refl

route_of_lem_example :
    (r : Route) × (route_of post "/users/graphql" ≡ ok r)
    × ((r' : Route) → IsRoute post "/users/graphql" r' ↔ (r' ≡ r))
route_of_lem_example = route_of_lem post "/users/graphql"
