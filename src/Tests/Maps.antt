-- ===== src/Tests/Maps.antt =====
-- The maps of common/rbtree.h and of os/types.h at concrete inputs.
use ceph_in_c.Base.{◌≡◌, refl, true, false, Option, some, none, List, [], ◌∷◌}
use ceph_in_c.Base.Order.{CString, string_ord}
use ceph_in_c.Base.Errno.{ok}
use ceph_in_c.Base.Alloc.{Plenty, malloc}
use ceph_in_c.Map.{
  leaf, left, right, node, black, red, RbTree, NodePath, map_search, map_insert, map_remove,
}
use ceph_in_c.Map.Laws.{get, update, IsValid}
use ceph_in_c.Map.Plain.{plain}
use ceph_in_c.Map.Refine.{insert_spec, map_insert-refines, map_remove-refines}
use ceph_in_c.OsTypes.{OsMap, map_update}
use ceph_in_c.OsTypes.Update.{merged, map_update_rules}
use ceph_in_c.OsTypes.Failure.{map_update_hides_failure}
use ceph_in_c.Tests.Data.{key_a, key_b, small_map, small_map-IsValid, single, single-IsValid}

-- The change of the small map that gives its key a new value.
abbrev change : OsMap
change = single key_a (4 ∷ [])

change-IsValid : IsValid plain change
change-IsValid = single-IsValid key_a (4 ∷ [])

insert_b :
    map_insert plain small_map key_b (4 ∷ [])
    ≡ (ok, node black leaf key_a (7 ∷ 8 ∷ []) (node red leaf key_b (4 ∷ []) leaf))
unfolding map_insert ceph_in_c.Map.find_link ceph_in_c.Map.link ceph_in_c.Base.Order.strcmp plain
insert_b = refl

search_a : map_search small_map key_a ≡ some ([], 7 ∷ 8 ∷ [])
unfolding map_search ceph_in_c.Base.Order.strcmp
search_a = refl

map_insert-refines_example :
    IsValid plain (map_insert plain small_map key_a (4 ∷ [])).1
    × ((
      (map_insert plain small_map key_a (4 ∷ [])).0,
      get (map_insert plain small_map key_a (4 ∷ [])).1,
    )
        ≡ insert_spec (get small_map) key_a (4 ∷ []))
map_insert-refines_example = map_insert-refines plain key_a (4 ∷ []) small_map-IsValid

map_remove-refines_example :
    ((map_remove plain small_map []).0 ≡ ok)
    × IsValid plain (map_remove plain small_map []).1
    × (get (map_remove plain small_map []).1 ≡ update (get small_map) key_a none)
map_remove-refines_example = map_remove-refines plain key_a small_map-IsValid search_a

map_update_rules_example :
    ((map_update plain small_map change []).0 ≡ ok)
    × IsValid plain (map_update plain small_map change []).1
    × (get (map_update plain small_map change []).1 ≡ merged (get small_map) (get change))
    × Plenty (map_update plain small_map change []).2
map_update_rules_example = map_update_rules plain [] small_map-IsValid change-IsValid tt

change_entries : plain.entries change ≡ (key_a, 4 ∷ []) ∷ []
unfolding plain
change_entries = refl

first_fails : malloc (false ∷ []) ≡ (false, [])
unfolding malloc
first_fails = refl

map_update_hides_failure_example :
    ((map_update plain small_map change (false ∷ [])).0 ≡ ok)
    × (get (map_update plain small_map change (false ∷ [])).1 ≡ update (get small_map) key_a none)
    × (get (map_update plain small_map change (false ∷ [])).1 key_a ≡ none)
map_update_hides_failure_example =
    map_update_hides_failure plain key_a 4 [] [] (false ∷ []) [] small_map-IsValid search_a
      change_entries first_fails
