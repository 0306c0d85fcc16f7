-- ===== src/Lib.antt =====
-- A model of local-singbox-manager, a web panel and Telegram bot that turns share URLs into
-- configurations of sing-box, deploys them on the host and hands them out to users.
--
-- The parts, and how they interact:
--   app/parsers (Parsers): `parse_url` finds the parser of a scheme in the registry (Parsers/Registry)
--     and makes a node of a URL (Parsers/Vless, Parsers/Hysteria2, Parsers/Node).
--   app/singbox: Singbox/Presets, Singbox/Routes and Singbox/Outbounds build the parts of a
--     configuration; Singbox/Generator joins them for the host, Singbox/ClientGenerator for users.
--     Singbox/Host has the commands of app/system_clients.py and the check of a configuration, and
--     Singbox/Deployer the pipeline of app/singbox/deployer.py with its rollback.
--   app/models.py and app/repositories.py (Store): the rows of all tables as one record, `Database`, and
--     the queries as functions of it.
--   app/services (Services): NodeTags, Settings, AppBypass, Nodes, Deploy, Profiles, Distribution, Users,
--     Servers, LogInsights, Metrics and Audit, one file or folder for each file of the source. `Services.Profiles.activate_profile` calls
--     `Services.Deploy.activate_node`, which generates a configuration, deploys it and marks rows active.
--     `Services.ClientConfigs` makes the files that are sent to a user, from an assignment of
--     `Services.Distribution`.
--   app/singbox/service.py (Singbox/Service): the state, the log and the control of the service.
--   app/health.py and the loop of app/main.py (Health, Health/Loop): the checks, their verdict, the rows
--     they leave and the notifications of a change.
--   app/telegram (Telegram): Types, Presenters and Client as in the source; handlers.py is Users and
--     Admins, dispatcher.py Dispatcher, and the runner of bot.py Runner, which polls for updates, has each
--     dispatched, and posts the answer. `Telegram.Admins.default_admin_deps` joins the handlers with Health,
--     Singbox and Services.Deploy.
--   app/auth.py (Auth): the rate limit of logins, the session token, and the middleware.
--   app/config.py (Config) and app/notify.py (Notify): the settings from the environment, and the channels of
--     a notification. Telegram/Diagnostics reads the settings of the bot from a file as well.
--   Services/Nodes/Transfer and Services/Nodes/Export have the import and the export of nodes,
--     Services/Nodes/Lookup the lookup of app/geo.py, Services/Servers/Probe the probes, and
--     Services/AppBypass/Form the form of the bypass.
--
-- An operation that changes rows is a function from `Database`; one that fails returns a result. An
-- exception that no caller catches is `Crash` or `DeployCrash`, and leaves the rows as they were, since
-- nothing is committed. A deploy runs on a `Host`, whose answers may depend on everything that happened
-- before, and returns the log of what it did, newest first. Python's library is the record `Python`
-- (Common/Python), pydantic `Pydantic`, Telegram `Telegram`, and urllib `Urllib`: the theorems hold
-- whatever they do, unless a hypothesis says more. Times are natural numbers, of
-- microseconds (of ticks in Auth/RateLimit); what the database stamps is cut to seconds
-- (`Store.Models.current_timestamp`), and one message, form or turn of a loop has one time. The loops of the
-- modelled code run over lists or for a fixed number of times (`wait_service_active`: six); those that never
-- end, of the health checks and of the bot, are functions of the list of their turns. Only
-- `Telegram.Client.pieces` has fuel, the length of the text, which is enough since a piece is not empty.
-- The HTTP services are parameters: `Probes` for the checks, `Api` and `Answers` for Telegram. A text that
-- is sent stands for its UTF-8 bytes.
--
-- A probe of a server asks `Remote` for the answer of SSH, regular expressions over a line of the log are
-- the record `Patterns`, and floating-point numbers of the metrics the record `Floats`. A notification is
-- the list of what is sent; how a channel answers changes nothing.
--
-- Not modelled: the web routes, templates and the start of the program, which wire these parts; the rows of
-- the dashboard and the points of the chart of app/services/metrics.py, which only fill pages; the catalogue
-- of desktop files, which is a parameter; the script that runs on a server; the HTTP requests themselves;
-- logging.
pub mod Common
pub mod Parsers
pub mod Singbox
pub mod Store
pub mod Services
pub mod Auth
pub mod Health
pub mod Config
pub mod Notify
pub mod Telegram
pub mod Tests
