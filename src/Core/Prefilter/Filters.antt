-- ===== src/Core/Prefilter/Filters.antt =====
-- `Filters` of crates/core/src/lib.rs: a prefilter for each parser id, which is its bytes.
use shipstern.Base.{◌≡◌, ◌≢◌, refl, ◌∙◌, Option, none, some, List}
use shipstern.Base.Maps.{
  Map, get as map_get, keys, insert as map_insert, remove as map_remove, IsSorted, get-insert_self,
  get-insert_ne, get-remove_self,
}
use shipstern.Base.Maps.Kept.{get-remove_ne}
use shipstern.BlockCoordinator.Keys.{lex_ord}
use shipstern.Core.Prefilter.{Bytes, Prefilter}
use shipstern.Core.Prefilter.Merge.{merge, merge_opt}

abbrev pub Filters : Type 0
Filters = Map Bytes Prefilter

unfoldable pub get : Bytes → Filters → Option Prefilter
get parser_id filters = map_get parser_id filters

unfoldable pub parser_ids : Filters → List Bytes
parser_ids filters = keys filters

-- The new filters, and the previous prefilter under the id.
unfoldable pub insert : Bytes → Prefilter → Filters → Filters × Option Prefilter
insert parser_id prefilter filters =
    (map_insert parser_id prefilter filters, map_get parser_id filters)

-- The entry of a map, occupied or vacant.
unfoldable pub merge_entry : Prefilter → Option Prefilter → Prefilter
merge_entry prefilter (some existing) = merge existing prefilter
merge_entry prefilter none = prefilter

unfoldable pub merge_filters : Bytes → Prefilter → Filters → Filters
unfolding merge_entry
merge_filters parser_id prefilter filters =
    map_insert parser_id (merge_entry prefilter (map_get parser_id filters)) filters

unfoldable pub remove : Bytes → Filters → Filters × Option Prefilter
remove parser_id filters = (map_remove parser_id filters, map_get parser_id filters)

merge_entry_lem :
    (p : Prefilter) (o : Option Prefilter) → some (merge_entry p o) ≡ merge_opt merge o (some p)
unfolding merge_entry merge_opt
merge_entry_lem p none = refl
merge_entry_lem p (some q) = refl

-- An insertion, a merge and a removal change the prefilter of the parser they name and no other: to the
-- one given, to the old one merged with it, or to none. An insertion and a removal return the old one.
pub updates_one :
    (k j : Bytes) (p : Prefilter) (filters : Filters)
    → IsSorted filters
    → k ≢ j
    → (get k (insert k p filters).0 ≡ some p)
      × ((insert k p filters).1 ≡ get k filters)
      × (get k (merge_filters k p filters) ≡ merge_opt merge (get k filters) (some p))
      × (get k (remove k filters).0 ≡ none)
      × ((remove k filters).1 ≡ get k filters)
      × (get j (insert k p filters).0 ≡ get j filters)
      × (get j (merge_filters k p filters) ≡ get j filters)
      × (get j (remove k filters).0 ≡ get j filters)
unfolding get insert merge_filters remove
updates_one k j p filters sorted differ = (
  get-insert_self k p filters,
  refl,
  get-insert_self k _ filters ∙ merge_entry_lem p (map_get k filters),
  get-remove_self k filters sorted,
  refl,
  get-insert_ne k j p filters differ,
  get-insert_ne k j _ filters differ,
  get-remove_ne k j filters differ sorted,
)
