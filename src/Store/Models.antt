-- ===== src/Store/Models.antt =====
-- app/models.py: one record for each table, and the database as the rows of each. `updated_at`,
-- which nothing reads, is left out. Times are counts of microseconds. A commit has no trace: an
-- operation of the model returns the rows that its last commit leaves.
use local_singbox_manager.Common.{ℕ, ◌*◌, ◌/◌, String, Bool, Option, List}

abbrev pub second : ℕ
second = 1000000

-- `func.now()`, which is `CURRENT_TIMESTAMP` of SQLite: a time in whole seconds
abbrev pub current_timestamp : ℕ → ℕ
current_timestamp now = now / second * second

pub record Node : Type 0 where
  pub id : ℕ
  pub tag : String
  pub protocol : String
  pub raw_url : String
  pub parsed_json : String
  pub schema_version : ℕ
  pub active : Bool
  pub country_code : Option String
  pub country_name : Option String
  pub provider_name : Option String
  pub provider_suggestion : Option String
  pub notes : Option String
  pub topology_role : Option String
  pub created_at : ℕ

pub record Setting : Type 0 where
  pub key : String
  pub value : String

pub record HealthCheckLog : Type 0 where
  pub id : ℕ
  pub checked_at : ℕ
  pub node_tag : Option String
  pub check_name : String
  pub category : String
  pub ok : Bool
  pub latency_ms : Option ℕ
  pub detail : Option String

pub record Profile : Type 0 where
  pub id : ℕ
  pub name : String
  pub description : Option String
  pub node_tag : Option String
  pub dns_preset : String
  pub route_preset : String
  pub active : Bool
  pub created_at : ℕ

pub record DeployLog : Type 0 where
  pub id : ℕ
  pub started_at : ℕ
  pub node_tag : Option String
  pub config_hash : Option String
  pub backup_name : Option String
  pub stage_reached : String
  pub success : Bool
  pub rolled_back : Bool
  pub error : Option String

pub record AdminActionLog : Type 0 where
  pub id : ℕ
  pub created_at : ℕ
  pub actor : String
  pub channel : String
  pub action : String
  pub success : Bool
  pub detail : Option String

pub record ConfigGroup : Type 0 where
  pub id : ℕ
  pub name : String
  pub description : Option String
  pub enabled : Bool
  pub node_tags_json : String
  pub config_version : ℕ
  pub route_preset : String
  pub refresh_limit_per_hour : Option ℕ
  pub notes : Option String
  pub created_at : ℕ

pub record ManagedUser : Type 0 where
  pub id : ℕ
  pub telegram_id : String
  pub display_name : Option String
  pub enabled : Bool
  pub config_group_id : Option ℕ
  pub refresh_limit_per_hour : Option ℕ
  pub notes : Option String
  pub created_at : ℕ

pub record ConfigDeliveryLog : Type 0 where
  pub id : ℕ
  pub created_at : ℕ
  pub managed_user_id : Option ℕ
  pub telegram_id : String
  pub config_group_id : Option ℕ
  pub action : String
  pub success : Bool
  pub config_version : Option ℕ
  pub config_fingerprint : Option String
  pub detail : Option String

-- The rows in the order of their insertion, and the time that `func.now()` gives.
pub record Database : Type 0 where
  pub nodes : List Node
  pub settings : List Setting
  pub profiles : List Profile
  pub health_logs : List HealthCheckLog
  pub deploy_logs : List DeployLog
  pub admin_logs : List AdminActionLog
  pub groups : List ConfigGroup
  pub users : List ManagedUser
  pub deliveries : List ConfigDeliveryLog
  pub now : ℕ
