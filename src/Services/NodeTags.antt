-- ===== src/Services/NodeTags.antt =====
-- app/services/node_tags.py
pub mod Laws
use local_singbox_manager.Common.{
  String, Bool, not, ◌&&◌, Option, none, some, List, [], ◌∷◌, map, is_blank, text_or, strip,
  split_on, code_of_newline, replace_char, member, filter, if◌then◌else◌,
}
use local_singbox_manager.Common.Json.{Json, arr, texts, of_items}
use local_singbox_manager.Common.Python.{Python}

-- the argument of `parse_node_tags`: a list of texts, or another value that may be missing
pub data RawTags : Type 0 where
  listed : List String → RawTags
  joined : Option String → RawTags

-- the loop, which keeps a tag that is not empty and not yet seen
unfoldable pub collect : List String → List String → List String
collect seen [] = []
collect seen (part ∷ parts) =
    let tag = strip part in
    let keep = tag ∷ collect (tag ∷ seen) parts in
    let skip = collect seen parts in
    if not (is_blank tag) && not (member tag seen) then keep else skip

unfoldable pub parse_node_tags : RawTags → List String
unfolding collect
parse_node_tags (listed parts) = collect [] parts
parse_node_tags (joined raw) =
    collect [] (split_on b',' (replace_char code_of_newline "," (text_or raw "")))

module _ ⦃py : Python⦄ where
  unfoldable pub encode_node_tags : List String → String
  encode_node_tags tags = py.dumps (texts tags)

  abbrev decoded : Option Json → List String
  decoded (some (arr items)) =
      map py.str_of (filter (λ item. not (is_blank (strip (py.str_of item)))) (of_items items))
  decoded _ = []

  unfoldable pub decode_node_tags : String → List String
  decode_node_tags raw = decoded (py.loads (if is_blank raw then "[]" else raw))
