-- ===== src/Tests/Bots.antt =====
-- Values for the tests of the bot: what it runs on, messages, probes, Telegram.
use local_singbox_manager.Common.{ℕ, String, true, false, none, some, [], ◌∷◌}
use local_singbox_manager.Common.Json.{pos, str, num, object, Dict}
use local_singbox_manager.Common.Results.{ok, err}
use local_singbox_manager.Parsers.Node.{base_of}
use local_singbox_manager.Services.Nodes.{Pydantic}
use local_singbox_manager.Services.Deploy.{Env}
use local_singbox_manager.Services.ClientConfigs.{DocumentError}
use local_singbox_manager.Health.{Probes, answered, responded}
use local_singbox_manager.Telegram.Types.{TelegramMessage}
use local_singbox_manager.Telegram.Client.{Api}
use local_singbox_manager.Telegram.Dispatcher.{Bot}
use local_singbox_manager.Telegram.Runner.{Runner, Answers}
use local_singbox_manager.Telegram.Admins.{default_admin_deps}
use local_singbox_manager.Tests.Samples.{sample_python, sample_vless, sample_db, sample_host}

abbrev pub sample_pydantic : Pydantic
sample_pydantic = record {
  dump = λ n. ("protocol", str (base_of n).protocol) ∷ [];
  validate_vless = λ d. ok sample_vless;
  validate_hysteria2 = λ d. err "no";
}

abbrev pub sample_env : Env
sample_env = record {
  pydantic = sample_pydantic;
  texts = record { of_load = λ e. "load"; of_config = λ e. "config" };
  host = sample_host;
  locked = false;
}

-- everything answers, but no interface is up
abbrev pub sample_probes : Probes
sample_probes = record {
  service = λ unit. ok (0, "active");
  link = λ iface. ok (1, "");
  dns = λ name. answered 12 tt;
  tcp = λ host port. answered 3 tt;
  https = λ url. answered 40 200;
  ip = λ url. responded 200 "203.0.113.7";
}

-- a message of the user of the sample, who is no administrator
abbrev pub sample_message : TelegramMessage
sample_message = record { actor_id = some (pos 7); chat_id = some (pos 7); text = "/config" }

abbrev pub error_name : DocumentError → String
error_name e = "ValueError"

abbrev pub sample_bot : Bot
sample_bot = record {
  admin_ids = pos 1 ∷ [];
  deps = default_admin_deps sample_env sample_probes;
  pydantic = sample_pydantic;
  name_of = error_name;
}

abbrev pub sample_api : Api
sample_api posts post = true

abbrev pub sample_runner : Runner
sample_runner = record { offset = none; db = sample_db; past = []; posts = [] }

abbrev pub sample_update : ℕ → Dict
sample_update n =
    ("update_id", num (pos n))
    ∷ ("message", object (("chat", object (("id", num (pos 7)) ∷ [])) ∷ ("text", str "/help") ∷ []))
    ∷ []

-- two updates at first, and none after them
abbrev pub sample_answers : Answers
sample_answers none = ok (sample_update 5 ∷ sample_update 6 ∷ [])
sample_answers (some offset) = ok []
