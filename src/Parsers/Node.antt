-- ===== src/Parsers/Node.antt =====
-- app/parsers/base.py and the node classes of vless.py and hysteria2.py. A parser only puts texts
-- into `extra_params`.
use local_singbox_manager.Common.{ℕ, String, Bool, Option, List}
use local_singbox_manager.Common.Json.{ℤ}

pub record NodeBase : Type 0 where
  pub protocol : String
  pub raw_url : String
  pub tag : String
  pub server : String
  pub port : ℕ
  pub schema_version : ℕ
  pub extra_params : List (String × String)

pub record VlessNode : Type 0 where
  pub base : NodeBase
  pub open base use *
  pub uuid : String
  pub network : String
  pub transport_type : String
  pub security : String
  pub sni : Option String
  pub pbk : Option String
  pub sid : Option String
  pub fp : Option String
  pub flow : Option String
  pub insecure : Bool
  pub path : Option String
  pub host : Option String
  pub service_name : Option String
  pub header_type : Option String

pub record Hysteria2Node : Type 0 where
  pub base : NodeBase
  pub open base use *
  pub auth : String
  pub sni : Option String
  pub insecure : Bool
  pub obfs_type : Option String
  pub obfs_password : Option String
  pub up_mbps : Option ℤ
  pub down_mbps : Option ℤ

-- The class of a node: one of the two subclasses, or the base class itself.
pub data ParsedNode : Type 0 where
  vless : VlessNode → ParsedNode
  hysteria2 : Hysteria2Node → ParsedNode
  plain : NodeBase → ParsedNode

abbrev pub base_of : ParsedNode → NodeBase
base_of (vless n) = n.base
base_of (hysteria2 n) = n.base
base_of (plain n) = n
