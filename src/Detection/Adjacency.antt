-- ===== src/Detection/Adjacency.antt =====
-- Which services the topology of src/aegis_services/detection/topology.py relates.
use aegis_project.Prelude.{
  String, ◌≡◌, refl, Bool, false, ◌&&◌, ◌||◌, List, [], ◌∷◌, arith, str_eq, eq_iff,
}
use aegis_project.Detection.Topology.{
  member, add, Adjacency, add_neighbour, neighbours, add_service, add_services, topology, adjacent,
}

-- A dependency is listed: `b` among the dependencies of `a`.
unfoldable pub depends : List (String × List String) → String → String → Bool
depends [] a b = false
depends ((svc, deps) ∷ edges) a b = (str_eq svc a && member b deps) || depends edges a b

member-add : (b v : String) (vs : List String) → member b (add v vs) ≡ (str_eq v b || member b vs)
member-add b v vs = ground (arith, eq_iff v b)

neighbours-add_neighbour :
    (k v a b : String) (m : Adjacency)
    → member b (neighbours a (add_neighbour k v m))
      ≡ ((str_eq k a && str_eq v b) || member b (neighbours a m))
unfolding neighbours add_neighbour
neighbours-add_neighbour k v a b [] = ground arith
neighbours-add_neighbour k v a b ((j, vs) ∷ m) = ground (
  arith,
  eq_iff j k,
  eq_iff j a,
  eq_iff k a,
  member-add b v vs,
  neighbours-add_neighbour k v a b m,
)

-- What the loop over one service's dependencies adds.
member-add_service :
    (svc : String) (deps : List String) (a b : String) (m : Adjacency)
    → member b (neighbours a (add_service svc deps m)) ≡ (
        (str_eq svc a && member b deps)
        || (str_eq svc b && member a deps)
        || member b (neighbours a m))
unfolding add_service
member-add_service svc [] a b m = ground arith
member-add_service svc (dep ∷ deps) a b m = ground (
  arith,
  member-add_service svc deps a b (add_neighbour dep svc (add_neighbour svc dep m)),
  neighbours-add_neighbour dep svc a b (add_neighbour svc dep m),
  neighbours-add_neighbour svc dep a b m,
)

member-add_services :
    (edges : List (String × List String)) (a b : String) (m : Adjacency)
    → member b (neighbours a (add_services edges m))
      ≡ (depends edges a b || depends edges b a || member b (neighbours a m))
unfolding add_services depends
member-add_services [] a b m = refl
member-add_services ((svc, deps) ∷ edges) a b m = ground (
  arith,
  member-add_services edges a b (add_service svc deps m),
  member-add_service svc deps a b m,
)

-- Two services are adjacent exactly if they are one, or one lists the other as a dependency,
-- whichever of them does.
pub adjacent_exact :
    (edges : List (String × List String)) (a b : String)
    → adjacent (topology edges) a b ≡ (str_eq a b || depends edges a b || depends edges b a)
unfolding adjacent topology neighbours
adjacent_exact edges a b = ground (arith, member-add_services edges a b [])

-- Adjacency in any topology that is loaded is symmetric.
pub adjacent_comm :
    (edges : List (String × List String)) (a b : String)
    → adjacent (topology edges) a b ≡ adjacent (topology edges) b a
adjacent_comm edges a b =
    ground (arith, eq_iff a b, eq_iff b a, adjacent_exact edges a b, adjacent_exact edges b a)
