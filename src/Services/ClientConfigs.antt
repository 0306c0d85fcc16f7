-- ===== src/Services/ClientConfigs.antt =====
-- app/services/client_configs.py: the files that are sent to a user.
pub mod Laws
use Prim.Native.Char.{Char, code}
use local_singbox_manager.Common.{
  ℕ, zero, suc, String, Bool, true, false, not, ◌||◌, Option, none, some, List, [], ◌∷◌, ◌⧺◌, ◌=ℕ◌,
  map, member, is_blank, is_empty, leb, strip, rstrip_by, take_text, text_length, is_code,
  if◌then◌else◌,
}
use local_singbox_manager.Common.Json.{Json, null, str, nat, Dict, object, array, lookup}
use local_singbox_manager.Common.Python.{Python}
use local_singbox_manager.Common.Results.{Result, ok, err, ◌>>=◌, ◌>>◌, guard, traverse}
use local_singbox_manager.Common.Sorting.{sort_by}
use local_singbox_manager.Parsers.Node.{ParsedNode}
use local_singbox_manager.Singbox.Presets.{default_dns_preset}
use local_singbox_manager.Singbox.Routes.{ConfigError}
use local_singbox_manager.Singbox.Outbounds.{build_outbound}
use local_singbox_manager.Singbox.ClientGenerator.{generate_client_config}
use local_singbox_manager.Store.Models.{Node, ConfigGroup}
use local_singbox_manager.Services.Distribution.{UserAssignment}
use local_singbox_manager.Services.Nodes.{Pydantic, LoadError, deserialize_node}

-- `content` is the text that is sent in UTF-8
pub record ClientConfigDocument : Type 0 where
  pub filename : String
  pub content : String
  pub mime_type : String
  pub caption : String

-- the exceptions that end the making of a file
pub data DocumentError : Type 0 where
  value_error : String → DocumentError
  load : LoadError → DocumentError
  config : ConfigError → DocumentError

abbrev pub loading {ℓ} : {A : Type ℓ} → Result LoadError A → Result DocumentError A
loading (ok a) = ok a
loading (err e) = err (load e)

abbrev pub configuring {ℓ} : {A : Type ℓ} → Result ConfigError A → Result DocumentError A
configuring (ok a) = ok a
configuring (err e) = err (config e)

abbrev pub max_sbclient_profile_name_length : ℕ
max_sbclient_profile_name_length = 80

-- `[a-zA-Z0-9._-]`
unfoldable pub is_filename_safe : Char → Bool
is_filename_safe c =
    let n = code c in
    if leb 97 n
    then leb n 122
    else if leb 65 n
    then leb n 90 || n =ℕ 95
    else if leb 48 n
    then leb n 57
    else n =ℕ 46 || n =ℕ 45

-- `_FILENAME_SAFE.sub("-", s)`: each run of other characters becomes one dash; the test says
-- whether the character before belongs to such a run
unfoldable pub safe_filename : Bool → String → String
safe_filename within String.[] = String.[]
safe_filename within (String.◌∷◌ c s) =
    let kept = String.◌∷◌ c (safe_filename false s) in
    let dropped = safe_filename true s in
    if is_filename_safe c then kept else if within then dropped else "-" ⧺ dropped

unfoldable pub lstrip_by : (Char → Bool) → String → String
lstrip_by p String.[] = String.[]
lstrip_by p (String.◌∷◌ c s) = let rest = lstrip_by p s in if p c then rest else String.◌∷◌ c s

-- one of `-._`
abbrev pub is_trim : Char → Bool
is_trim c = is_code 45 c || is_code 46 c || is_code 95 c

-- `version or 1`
abbrev pub version_or_1 : Option ℕ → ℕ
version_or_1 none = 1
version_or_1 (some zero) = 1
version_or_1 (some (suc n)) = suc n

abbrev pub text_or_dash : String → String
text_or_dash s = if is_blank s then "-" else s

abbrev pub profile_name : Node → String
profile_name node = strip node.tag

abbrev pub tag_of : Node → String
tag_of node = node.tag

-- what a profile of a bundle says
unfoldable pub profile_of : String → Node → Dict
profile_of route_preset node =
    ("name", str (profile_name node))
    ∷ ("raw_url", str node.raw_url)
    ∷ ("dns_preset", str default_dns_preset)
    ∷ ("route_preset", str route_preset)
    ∷ []

-- `profiles[0]["name"]`; where it is read there is a profile, and it has a name
abbrev pub default_profile : List Dict → Json
default_profile [] = null
default_profile (profile ∷ profiles) = elim (lookup "name" profile) [ none ↦ null | some v ↦ v ]

abbrev pub bundle_of : List Dict → Dict
bundle_of profiles =
    ("schema_version", nat 1)
    ∷ ("default_profile", default_profile profiles)
    ∷ ("profiles", array (map object profiles))
    ∷ []

module _ ⦃py : Python⦄ where
  unfoldable pub slug : String → String
  unfolding is_filename_safe
  slug group_name =
      let s =
        py.lower (rstrip_by is_trim (lstrip_by is_trim (safe_filename false (strip group_name)))) in
      if is_blank s then "config" else s

  unfoldable pub client_config_filename : String → Option ℕ → String
  client_config_filename group_name version =
      "singbox-" ⧺ slug group_name ⧺ "-v" ⧺ py.decimal (version_or_1 version) ⧺ ".json"

  unfoldable pub sbclient_bundle_filename : String → Option ℕ → String
  sbclient_bundle_filename group_name version =
      "singbox-client-" ⧺ slug group_name ⧺ "-v" ⧺ py.decimal (version_or_1 version) ⧺ ".sbclient"

  abbrev caption_of : String → ConfigGroup → UserAssignment → String
  caption_of what group a = take_text 1024 (
      what
      ⧺ " for "
      ⧺ group.name
      ⧺ " v"
      ⧺ py.decimal (version_or_1 a.config_version)
      ⧺ " ("
      ⧺ text_or_dash (take_text 12 a.config_fingerprint)
      ⧺ ")")

  abbrev config_document : ConfigGroup → UserAssignment → Dict → ClientConfigDocument
  config_document group a made = record {
    filename = client_config_filename group.name a.config_version;
    content = py.dumps_indented (object made);
    mime_type = "application/json";
    caption = caption_of "sing-box config" group a;
  }

  abbrev bundle_document : ConfigGroup → UserAssignment → Dict → ClientConfigDocument
  bundle_document group a made = record {
    filename = sbclient_bundle_filename group.name a.config_version;
    content = py.dumps_indented (object made);
    mime_type = "application/json";
    caption = caption_of "singbox-client bundle" group a;
  }

  module _ (pydantic : Pydantic) where
    -- one turn of the loop of `_sbclient_profiles`, up to the name
    unfoldable pub check_profile : List String → Node → Result DocumentError (Unit {0})
    check_profile seen_names node = do
      parsed ← loading (deserialize_node pydantic node)
      out ← configuring (build_outbound parsed)
      guard (not (is_blank (profile_name node)))
          (value_error "Node tag is required for .sbclient profile name")
      guard (leb (text_length (profile_name node)) max_sbclient_profile_name_length)
          (value_error "Node tag is too long for .sbclient profile name")
      guard (not (member (profile_name node) seen_names))
          (value_error "Duplicate .sbclient profile name")

    unfoldable pub profiles_from :
        List String → String → List Node → Result DocumentError (List Dict)
    unfolding check_profile
    profiles_from seen_names route_preset [] = ok []
    profiles_from seen_names route_preset (node ∷ nodes) =
        let rest = profiles_from (profile_name node ∷ seen_names) route_preset nodes in
        check_profile seen_names node
        >> (rest >>= λ profiles. ok (profile_of route_preset node ∷ profiles))

    unfoldable pub sbclient_profiles : UserAssignment → Result DocumentError (List Dict)
    unfolding profiles_from
    sbclient_profiles a = profiles_from [] a.route_preset (sort_by tag_of a.nodes)

    abbrev config_of_group :
        UserAssignment → Option ConfigGroup → Result DocumentError ClientConfigDocument
    config_of_group a none = err (value_error "No config group assigned")
    config_of_group a (some group) = do
      parsed_nodes ← loading (traverse (deserialize_node pydantic) a.nodes)
      made ←
          configuring (generate_client_config parsed_nodes a.route_preset default_dns_preset "warn")
      ok (config_document group a made)

    unfoldable pub build_client_config_document :
        UserAssignment → Result DocumentError ClientConfigDocument
    build_client_config_document a =
        guard (is_blank a.error) (value_error a.error) >> config_of_group a a.group

    abbrev pub bundle_of_group :
        UserAssignment → Option ConfigGroup → Result DocumentError ClientConfigDocument
    bundle_of_group a none = err (value_error "No config group assigned")
    bundle_of_group a (some group) = do
      guard (not (is_empty a.nodes)) (value_error "No nodes assigned")
      profiles ← sbclient_profiles a
      ok (bundle_document group a (bundle_of profiles))

    unfoldable pub build_sbclient_bundle_document :
        UserAssignment → Result DocumentError ClientConfigDocument
    unfolding sbclient_profiles
    build_sbclient_bundle_document a =
        guard (is_blank a.error) (value_error a.error) >> bundle_of_group a a.group
