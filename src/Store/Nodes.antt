-- ===== src/Store/Nodes.antt =====
-- `NodeRepository` of app/repositories.py. `first()` is the first row in insertion order, and equal keys of
-- an `order_by` keep that order.
use local_singbox_manager.Common.{
  ℕ, String, Bool, true, false, Option, none, some, List, map, ◌==◌, ◌=ℕ◌, leb, find, if◌then◌else◌,
}
use local_singbox_manager.Common.Json.{ℤ, pos, negsuc}
use local_singbox_manager.Common.Python.{Python}
use local_singbox_manager.Common.Sorting.{sort_by, sort_with}
use local_singbox_manager.Common.Results.{Result, ok, err}
use local_singbox_manager.Store.Models.{Node, Database}
use local_singbox_manager.Store.Rows.{Crash, value_error}

-- active first, then the newest
abbrev pub dashboard_order : Node → Node → Bool
dashboard_order a b =
    if a.active
    then (if b.active then leb b.created_at a.created_at else true)
    else (if b.active then false else leb b.created_at a.created_at)

unfoldable pub list_for_dashboard : Database → List Node
list_for_dashboard db = sort_with dashboard_order db.nodes

unfoldable pub list_by_tag : Database → List Node
list_by_tag db = sort_by (λ (n : Node). n.tag) db.nodes

unfoldable pub list_all : Database → List Node
list_all db = db.nodes

unfoldable pub get_active : Database → Option Node
get_active db = find (λ (n : Node). n.active) db.nodes

unfoldable pub get_by_id : ℕ → Database → Option Node
get_by_id node_id db = find (λ (n : Node). n.id =ℕ node_id) db.nodes

unfoldable pub get_by_tag : String → Database → Option Node
get_by_tag tag db = find (λ (n : Node). n.tag == tag) db.nodes

-- the id that a text of digits stands for; ids are never negative
abbrev by_number : Option ℤ → Database → Result Crash (Option Node)
by_number none db = err value_error
by_number (some (pos n)) db = ok (get_by_id n db)
by_number (some (negsuc n)) db = ok none

abbrev or_by_tag : String → Database → Result Crash (Option Node) → Result Crash (Option Node)
or_by_tag value db (err e) = err e
or_by_tag value db (ok (some n)) = ok (some n)
or_by_tag value db (ok none) = ok (get_by_tag value db)

unfoldable pub find_by_id_or_tag : ⦃py : Python⦄ → String → Database → Result Crash (Option Node)
unfolding get_by_id get_by_tag
find_by_id_or_tag ⦃py⦄ value db =
    or_by_tag value db (if py.isdigit value then by_number (py.int_of value) db else ok none)

unfoldable pub deactivate_all : Database → Database
deactivate_all db = record db { nodes = map (λ (n : Node). record n { active = false }) db.nodes }
