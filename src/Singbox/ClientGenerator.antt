-- ===== src/Singbox/ClientGenerator.antt =====
-- app/singbox/client_generator.py: the configuration that is sent to a user.
pub mod Laws
use local_singbox_manager.Common.{
  String, Bool, true, false, Option, none, some, List, [], ◌∷◌, ◌++◌, map, member, filter, take,
  if◌then◌else◌,
}
use local_singbox_manager.Common.Json.{Json, str, Dict, object, texts, insert}
use local_singbox_manager.Common.Results.{Result, ok, err, ◌>>=◌, ◌>>◌, guard, traverse}
use local_singbox_manager.Common.Sorting.{sort_by}
use local_singbox_manager.Common.Python.{Python}
use local_singbox_manager.Parsers.Node.{ParsedNode, base_of}
use local_singbox_manager.Singbox.Presets.{dns_presets, known_dns_preset, known_route_preset}
use local_singbox_manager.Singbox.Routes.{
  ConfigError, no_nodes, unknown_dns_preset, unknown_route_preset, unknown_log_level,
  duplicate_tags, reserved_tags, build_route_config,
}
use local_singbox_manager.Singbox.Outbounds.{build_outbound}
use local_singbox_manager.Singbox.Generator.{log_levels, direct_and_block, config_dict}

abbrev pub reserved_client_outbound_tags : List String
reserved_client_outbound_tags = "direct" ∷ "block" ∷ "proxy" ∷ []

abbrev same : String → String
same s = s

-- `s.add(tag)` on a set kept as a list without repetitions
abbrev add_text : String → List String → List String
add_text tag xs = if member tag xs then xs else tag ∷ xs

-- the loop of `_validate_node_tags`: the tags seen twice
unfoldable pub duplicates_from : List String → List String → List String → List String
duplicates_from seen duplicates [] = duplicates
duplicates_from seen duplicates (tag ∷ tags) =
    duplicates_from (add_text tag seen)
      (if member tag seen then add_text tag duplicates else duplicates) tags

-- the two tests of `_validate_node_tags`; the message of the first names five tags at most
abbrev refuse_duplicates : List String → Result ConfigError (Unit {0})
refuse_duplicates [] = ok tt
refuse_duplicates (d ∷ ds) = err (duplicate_tags (take 5 (sort_by same (d ∷ ds))))

abbrev refuse_reserved : List String → Result ConfigError (Unit {0})
refuse_reserved [] = ok tt
refuse_reserved (r ∷ rs) = err (reserved_tags (sort_by same (r ∷ rs)))

unfoldable pub validate_node_tags : List String → Result ConfigError (Unit {0})
unfolding duplicates_from
validate_node_tags tags =
    refuse_duplicates (duplicates_from [] [] tags)
    >> refuse_reserved (filter (λ tag. member tag reserved_client_outbound_tags) tags)

abbrev pub node_tag : ParsedNode → String
node_tag node = (base_of node).tag

abbrev pub selector : List String → String → Dict
selector tags first =
    ("type", str "selector")
    ∷ ("tag", str "proxy")
    ∷ ("outbounds", texts tags)
    ∷ ("default", str first)
    ∷ []

-- The outbounds of the nodes, with a selector over them where there are several, and the tag that
-- traffic goes to in the end; `tags[0]` of no tags does not occur.
abbrev pub with_selector : List Dict → List String → List Json × String
with_selector outs [] = (map object outs, "")
with_selector outs (first ∷ []) = (map object outs, first)
with_selector outs (first ∷ second ∷ tags) =
    (map object outs ++ object (selector (first ∷ second ∷ tags) first) ∷ [], "proxy")

module _ ⦃py : Python⦄ where
  unfoldable pub generate_client_config :
      List ParsedNode → String → String → String → Result ConfigError Dict
  generate_client_config [] route_preset dns_preset log_level = err no_nodes
  generate_client_config (n ∷ ns) route_preset dns_preset log_level = do
    guard (known_dns_preset dns_preset) (unknown_dns_preset dns_preset)
    guard (known_route_preset route_preset) (unknown_route_preset route_preset)
    guard (member log_level log_levels) (unknown_log_level log_level)
    let sorted_nodes = sort_by node_tag (n ∷ ns)
    let tags = map node_tag sorted_nodes
    validate_node_tags tags
    outs ← traverse build_outbound sorted_nodes
    let chosen = with_selector outs tags
    route ← build_route_config route_preset none
    ok (
        config_dict log_level dns_preset (insert "final" (str chosen.1) route)
          (chosen.0 ++ direct_and_block))
