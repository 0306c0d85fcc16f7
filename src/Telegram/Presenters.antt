-- ===== src/Telegram/Presenters.antt =====
-- app/telegram/presenters.py: the texts of the answers.
use local_singbox_manager.Common.{
  ℕ, String, Option, none, some, List, [], ◌∷◌, ◌++◌, ◌⧺◌, is_blank, map, join, length, strip,
  take_text, text_or, truthy, ◌||◌, if◌then◌else◌,
}
use local_singbox_manager.Common.Python.{Python}
use local_singbox_manager.Store.Models.{Node, ConfigGroup, ManagedUser}
use local_singbox_manager.Services.Distribution.{UserAssignment}
use local_singbox_manager.Services.ClientConfigs.{text_or_dash}
use local_singbox_manager.Singbox.Service.{ServiceStatus}
use local_singbox_manager.Health.{CheckResult, HealthReport}

unfoldable pub admin_help : String
admin_help = "Commands:\n/status\n/nodes\n/activate <node-id-or-tag>\n/logs\n/health\n/notify_test"

unfoldable pub user_help : String
user_help = "Commands:\n/status\n/config\n/refresh\n/sbclient"

unfoldable pub format_service_status : ServiceStatus → String → String → String
format_service_status status active_tag external_ip =
    "sing-box: "
    ⧺ status.active_state
    ⧺ "/"
    ⧺ status.sub_state
    ⧺ "\npid: "
    ⧺ text_or_dash status.pid
    ⧺ "\nsince: "
    ⧺ text_or_dash status.since
    ⧺ "\nactive node: "
    ⧺ text_or_dash active_tag
    ⧺ "\nexternal ip: "
    ⧺ text_or_dash external_ip

-- `provider_name or provider_suggestion or ""`, where one of them is not empty
abbrev provider_of : Node → String
provider_of node =
    if truthy node.provider_name
    then text_or node.provider_name ""
    else text_or node.provider_suggestion ""

abbrev meta_of : Node → List String
meta_of node =
    (if truthy node.country_code then text_or node.country_code "" ∷ [] else [])
    ++ (if truthy node.provider_name || truthy node.provider_suggestion
        then provider_of node ∷ []
        else [])

abbrev suffix_of : List String → String
suffix_of [] = ""
suffix_of (x ∷ xs) = " (" ⧺ join ", " (x ∷ xs) ⧺ ")"

abbrev group_name : Option ConfigGroup → String
group_name none = "-"
group_name (some group) = group.name

abbrev label_of : Option ManagedUser → String
label_of none = "user"
label_of (some user) = text_or user.display_name user.telegram_id

abbrev raw_links : List Node → List String
raw_links [] = []
raw_links (node ∷ nodes) =
    (node.tag ⧺ " [" ⧺ node.protocol ⧺ "]") ∷ node.raw_url ∷ "" ∷ raw_links nodes

module _ ⦃py : Python⦄ where
  abbrev node_line : Node → String
  node_line node =
      (if node.active then "*" else " ")
      ⧺ " "
      ⧺ py.decimal node.id
      ⧺ ": "
      ⧺ node.tag
      ⧺ " ["
      ⧺ node.protocol
      ⧺ "]"
      ⧺ suffix_of (meta_of node)

  abbrev lines_or : String → List String → String
  lines_or default [] = default
  lines_or default (line ∷ lines) = join "\n" (line ∷ lines)

  unfoldable pub format_nodes : List Node → String
  format_nodes nodes = lines_or "No nodes yet." (map node_line nodes)

  abbrev latency_text : Option ℕ → String
  latency_text none = ""
  latency_text (some ms) = " " ⧺ py.format_0f ms ⧺ "ms"

  abbrev check_line : CheckResult → String
  check_line check =
      (if check.passed then "OK" else "FAIL")
      ⧺ " "
      ⧺ check.name
      ⧺ latency_text check.latency_ms
      ⧺ ": "
      ⧺ check.detail

  unfoldable pub format_health_report : HealthReport → String
  format_health_report report =
      join "\n" (("overall: " ⧺ report.overall) ∷ map check_line report.checks)

  -- `config_version or '-'`
  abbrev version_text : Option ℕ → String
  version_text none = "-"
  version_text (some ℕ.zero) = "-"
  version_text (some (ℕ.suc n)) = py.decimal (ℕ.suc n)

  unfoldable pub format_user_status : UserAssignment → String
  format_user_status a =
      if is_blank a.error
      then "User: "
        ⧺ label_of a.user
        ⧺ "\nGroup: "
        ⧺ group_name a.group
        ⧺ "\nAssigned configs: "
        ⧺ py.decimal (length a.nodes)
        ⧺ "\nConfig version: "
        ⧺ version_text a.config_version
        ⧺ "\nRoute preset: "
        ⧺ a.route_preset
        ⧺ "\nFingerprint: "
        ⧺ text_or_dash (take_text 12 a.config_fingerprint)
      else a.error

  unfoldable pub format_user_configs : UserAssignment → String
  format_user_configs a =
      if is_blank a.error
      then strip (
          join "\n" (
            ("Config group: " ⧺ group_name a.group)
            ∷ ("Version: " ⧺ version_text a.config_version)
            ∷ ("Route preset: " ⧺ a.route_preset)
            ∷ ("Fingerprint: " ⧺ text_or_dash (take_text 12 a.config_fingerprint))
            ∷ "Generated sing-box config is attached."
            ∷ "Use /sbclient to get a singbox-client .sbclient bundle."
            ∷ "Raw proxy links remain below as fallback:"
            ∷ ""
            ∷ raw_links a.nodes))
      else a.error
