-- ===== src/Detection/Topology.antt =====
-- src/aegis_services/detection/topology.py. A set is a list without repeats.
use aegis_project.Prelude.{String, Bool, false, ◌||◌, List, [], ◌∷◌, str_eq, any, if◌then◌else◌}

abbrev pub member : String → List String → Bool
member v [] = false
member v (w ∷ ws) = str_eq w v || member v ws

-- `set.add`
abbrev pub add : String → List String → List String
add v vs = if member v vs then vs else v ∷ vs

abbrev pub Adjacency : Type 0
Adjacency = List (String × List String)

-- `self._adj.setdefault(k, set()).add(v)`
unfoldable pub add_neighbour : String → String → Adjacency → Adjacency
add_neighbour k v [] = (k, v ∷ []) ∷ []
add_neighbour k v ((j, vs) ∷ m) =
    if str_eq j k then (j, add v vs) ∷ m else (j, vs) ∷ add_neighbour k v m

-- `self._adj.get(a, set())`
unfoldable pub neighbours : String → Adjacency → List String
neighbours a [] = []
neighbours a ((j, vs) ∷ m) = if str_eq j a then vs else neighbours a m

-- The inner loop of `__init__`.
unfoldable pub add_service : String → List String → Adjacency → Adjacency
add_service svc [] adj = adj
add_service svc (dep ∷ deps) adj =
    add_service svc deps (add_neighbour dep svc (add_neighbour svc dep adj))

-- The outer loop.
unfoldable pub add_services : List (String × List String) → Adjacency → Adjacency
unfolding add_service
add_services [] adj = adj
add_services ((svc, deps) ∷ edges) adj = add_services edges (add_service svc deps adj)

-- `Topology(edges)`
unfoldable pub topology : List (String × List String) → Adjacency
unfolding add_services
topology edges = add_services edges []

unfoldable pub adjacent : Adjacency → String → String → Bool
unfolding neighbours
adjacent adj a b = str_eq a b || member b (neighbours a adj)

unfoldable pub related : Adjacency → String → List String → Bool
unfolding adjacent
related adj service others = any (adjacent adj service) others
