-- ===== src/Store/DeployLogs.antt =====
-- `DeployLogRepository` of app/repositories.py. `first()` is the first row in insertion order, and equal keys of
-- an `order_by` keep that order.
use local_singbox_manager.Common.{
  String, Bool, ◌&&◌, ◌||◌, none, some, List, [], ◌∷◌, ◌==◌, ◌=ℕ◌, leb, ltb, member, if◌then◌else◌,
}
use local_singbox_manager.Common.Sorting.{sort_with}
use local_singbox_manager.Store.Models.{DeployLog, Database}

-- newest first, and of the same time the larger id first
abbrev newest_first : DeployLog → DeployLog → Bool
newest_first a b = ltb b.started_at a.started_at || b.started_at =ℕ a.started_at && leb b.id a.id

-- the loop over the rows: the first of each tag that is not empty
unfoldable pub first_by_tag : List String → List DeployLog → List (String × DeployLog)
first_by_tag seen [] = []
first_by_tag seen (row ∷ rows) = elim row.node_tag [
  | none ↦ first_by_tag seen rows
  | some tag ↦
      let skip = first_by_tag seen rows in
      let keep = (tag, row) ∷ first_by_tag (tag ∷ seen) rows in
      if tag == "" || member tag seen then skip else keep
]

unfoldable pub latest_by_node_tag : Database → List (String × DeployLog)
unfolding first_by_tag
latest_by_node_tag db = first_by_tag [] (sort_with newest_first db.deploy_logs)
