-- ===== src/Tests/Samples.antt =====
-- Values for the tests: functions for what Python's library gives, nodes, rows, a host.
use local_singbox_manager.Common.{
  ℕ, zero, suc, ◌+◌, ◌≤◌, ◌≢◌, String, ◌≡◌, refl, ap, true, false, Option, none, some, List, [],
  ◌∷◌, ◌==◌, ◌=ℕ◌, arith, All, text_length, any_char, is_code, if◌then◌else◌,
}
use local_singbox_manager.Common.Json.{Json, str, num, pos, object, array, texts}
use local_singbox_manager.Common.Python.{Python, Url, IntOfFloat}
use local_singbox_manager.Common.Results.{Result, ok, err}
use local_singbox_manager.Common.Keyed.{IsFresh}
use local_singbox_manager.Parsers.Node.{VlessNode}
use local_singbox_manager.Store.Models.{Node, Profile, ConfigGroup, ManagedUser, Database}
use local_singbox_manager.Singbox.Host.{Host, completed}
use local_singbox_manager.Auth.Session.Laws.{DecimalLaws}

-- a number in the unary system
abbrev ones : ℕ → String
ones zero = String.[]
ones (suc n) = String.◌∷◌ "1" (ones n)

abbrev total : List ℕ → ℕ
total [] = 0
total (n ∷ ns) = n + total ns

abbrev text_of : Json → String
text_of (str s) = s
text_of (num (pos n)) = if n =ℕ 7 then "7" else ones n
text_of _ = ""

abbrev pub sample_url : Url
sample_url = record {
  scheme = "vless";
  username = some "uuid";
  password = none;
  hostname = some "server";
  port = some (some 443);
  query = "";
  fragment = "web";
}

abbrev read_json : String → Option Json
read_json s =
    if s == "vless row"
    then some (object (("protocol", str "vless") ∷ []))
    else if s == "[]"
    then some (array [])
    else some (texts ("web" ∷ []))

abbrev sample_float : IntOfFloat
sample_float = IntOfFloat.value (pos 1)

instance abbrev pub sample_python : Python
sample_python = record {
  lower = λ s. s;
  upper = λ s. s;
  isdigit = λ s. true;
  int_of = λ s. some (pos (text_length s));
  int_of_float = λ s. sample_float;
  decimal = ones;
  str_of = text_of;
  loads = read_json;
  dumps = λ j. "[\"web\"]";
  dumps_canonical = λ j. "canonical";
  dumps_unescaped = λ j. "[]";
  dumps_indented = λ j. "indented";
  format_0f = ones;
  urlparse = λ s. some sample_url;
  unquote = λ s. s;
  parse_qs = λ s. [];
  posix_path = λ s. record { parts = s ∷ []; name = s; text = s };
  sha256_hex = λ s. s;
  new_id = λ ids. suc (total ids);
}

at_most : (n : ℕ) (ids : List ℕ) → total ids ≤ n → All (λ i. i ≢ suc n) ids
at_most n [] h = tt
at_most n (i ∷ ids) h = ((λ e. ground arith), at_most n ids (omega arith))

pub sample_python-IsFresh : IsFresh sample_python
sample_python-IsFresh ids = at_most (total ids) ids (omega arith)

text_length-ones : (n : ℕ) → text_length (ones n) ≡ n
text_length-ones zero = refl
text_length-ones (suc n) = omega (arith, text_length-ones n)

ones-no_dot : (n : ℕ) → any_char (is_code 46) (ones n) ≡ false
ones-no_dot zero = refl
ones-no_dot (suc n) = ones-no_dot n

pub sample_python-DecimalLaws : DecimalLaws sample_python
sample_python-DecimalLaws = record {
  int_of-decimal = λ n. ap (λ (m : ℕ). some (pos m)) (text_length-ones n);
  no_dot = ones-no_dot;
}

abbrev pub sample_vless : VlessNode
sample_vless = record {
  base = record {
    protocol = "vless";
    raw_url = "vless://uuid@server:443#web";
    tag = "web";
    server = "server";
    port = 443;
    schema_version = 1;
    extra_params = [];
  };
  uuid = "uuid";
  network = "tcp";
  transport_type = "tcp";
  security = "none";
  sni = none;
  pbk = none;
  sid = none;
  fp = some "chrome";
  flow = some "xtls-rprx-vision";
  insecure = false;
  path = none;
  host = none;
  service_name = none;
  header_type = none;
}

abbrev pub sample_node : Node
sample_node = record {
  id = 1;
  tag = "web";
  protocol = "vless";
  raw_url = "";
  parsed_json = "vless row";
  schema_version = 1;
  active = false;
  country_code = none;
  country_name = none;
  provider_name = none;
  provider_suggestion = none;
  notes = none;
  topology_role = none;
  created_at = 0;
}

abbrev pub sample_profile : Profile
sample_profile = record {
  id = 1;
  name = "home";
  description = none;
  node_tag = some "web";
  dns_preset = "quad9_tls";
  route_preset = "full_tunnel";
  active = false;
  created_at = 0;
}

abbrev pub sample_group : ConfigGroup
sample_group = record {
  id = 1;
  name = "friends";
  description = none;
  enabled = true;
  node_tags_json = "[\"web\"]";
  config_version = 1;
  route_preset = "full_tunnel";
  refresh_limit_per_hour = none;
  notes = none;
  created_at = 0;
}

abbrev pub sample_user : ManagedUser
sample_user = record {
  id = 1;
  telegram_id = "7";
  display_name = none;
  enabled = true;
  config_group_id = some 1;
  refresh_limit_per_hour = none;
  notes = none;
  created_at = 0;
}

abbrev pub sample_db : Database
sample_db = record {
  nodes = sample_node ∷ record sample_node { id = 2; tag = "old"; active = true } ∷ [];
  settings = [];
  profiles = sample_profile ∷ [];
  health_logs = [];
  deploy_logs = [];
  admin_logs = [];
  groups = sample_group ∷ [];
  users = sample_user ∷ [];
  deliveries = [];
  now = 0;
}

-- a host on which every command succeeds and says "active"
abbrev pub sample_host : Host
sample_host = record {
  answer = λ past args. completed 0 "active" "";
  write = λ past path. none;
  uuid = λ past. "0";
  since = "now";
  helper_bin = "helper";
  singbox_bin = "sing-box";
  splitlines = λ s. s ∷ [];
  last_500 = λ s. s;
  backup_in = λ s. some "config_20250101_000000.json";
  is_fatal = λ s. false;
  is_problem = λ s. true;
  version_in = λ s. none;
}

-- what a computation gives, for a test that it returns
abbrev pub result_or {ℓ κ} : {E : Type κ} {A : Type ℓ} → A → Result E A → A
result_or d (ok a) = a
result_or d (err e) = d
