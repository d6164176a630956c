-- ===== src/Meta/Types.antt =====
-- internal/app/app.go: the structs, the interfaces `Repository` and `CMClient`, and the libraries
-- that the service calls. A UUID is its text, a time is counted from the zero time, and `State` is
-- all that an implementation of an interface keeps. The heartbeat and the last error of a plugin,
-- which no method here reads, are left out.
use n.Base.{ℕ, Bool, List, Option, Bytes, Signed, Unicode}
use n.Job.Backend.{Error, Result}
use n.Worker.Value.{Fields}
use n.Shared.Crypto
use n.Shared.Crypto.{Encrypter}

pub record Workspace : Type 0 where
  pub id : Bytes
  pub tenant_id : Bytes
  pub name : Bytes
  pub created_at : ℕ

pub record ColumnInfo : Type 0 where
  pub name : Bytes
  pub data_type : Bytes
  pub nullable : Bool

pub record TableInfo : Type 0 where
  pub name : Bytes
  pub columns : List ColumnInfo

pub record SchemaSnapshot : Type 0 where
  pub connection_id : Bytes
  pub tables : List TableInfo
  pub captured_at : ℕ

pub record Connection : Type 0 where
  pub id : Bytes
  pub workspace_id : Bytes
  pub user_id : Bytes
  pub tenant_id : Bytes
  pub name : Bytes
  pub adapter_type : Bytes
  pub params : Fields
  pub created_at : ℕ

pub record PluginDefinition : Type 0 where
  pub plugin_type : Bytes
  pub name : Bytes
  pub version : Bytes
  pub author : Bytes
  pub endpoint : Bytes
  pub protocol : Bytes
  pub status : Bytes
  pub tenant_id : Bytes
  pub is_global : Bool
  pub created_at : ℕ

pub record User : Type 0 where
  pub id : Bytes
  pub email : Bytes
  pub password_hash : Bytes
  pub password_salt : Bytes
  pub role : Bytes
  pub created_at : ℕ

pub record Agent : Type 0 where
  pub id : Bytes
  pub user_id : Bytes
  pub name : Bytes
  pub token_jti : Option Bytes
  pub status : Bytes
  pub created_at : ℕ

pub record Repository : Type 1 where
  pub State : Type 0
  pub list_workspaces : Bytes → Signed → Signed → State → Result (List Workspace)
  pub get_schema_snapshot : Bytes → Bytes → State → Result (Option SchemaSnapshot)
  pub save_schema_snapshot : Bytes → List TableInfo → State → Option Error × State
  pub create_connection : Connection → State → Result Bytes × State
  pub get_connection : Bytes → Bytes → State → Result (Option Connection)
  pub list_connections : Bytes → Bytes → Signed → Signed → State → Result (List Connection)
  pub delete_connection : Bytes → Bytes → State → Option Error × State
  pub register_plugin : PluginDefinition → State → Result Bytes × State
  pub create_user : Bytes → Bytes → Bytes → Bytes → State → Result Bytes × State
  pub get_user_by_email : Bytes → State → Result (Option User)
  pub get_user_by_id : Bytes → State → Result (Option User)
  pub create_workspace : Bytes → Bytes → Bytes → State → Result Bytes × State
  pub create_agent : Bytes → Bytes → State → Result Bytes × State
  pub list_agents_by_user : Bytes → State → Result (List Agent)
  pub get_agent : Bytes → State → Result (Option Agent)
  pub update_agent_token_jti : Bytes → Bytes → State → Option Error × State

-- The request that `GetSchema` sends.
pub record SchemaRequest : Type 0 where
  pub connection_id : Bytes
  pub adapter_type : Bytes
  pub params : Fields

-- The Connection Manager; its answer holds tables with the same fields as `TableInfo`.
pub record CmClient : Type 1 where
  pub State : Type 0
  pub get_schema : SchemaRequest → State → Result (List TableInfo) × State

-- `parse_address` is `mail.ParseAddress` with the address taken, `split_host_port` the error of
-- `net.SplitHostPort`, `quote` is `%q`, and `generate_hash` and `compare_hash` are bcrypt's.
pub record Libraries : Type 1 where
  pub unicode : Unicode
  pub cipher : Crypto.Library
  pub parse_address : Bytes → Result Bytes
  pub split_host_port : Bytes → Option Error
  pub quote : Bytes → Bytes
  pub read_random : ℕ → Result Bytes
  pub encode_raw_url : Bytes → Bytes
  pub generate_hash : Bytes → Result Bytes
  pub compare_hash : Bytes → Bytes → Option Error
  pub new_struct : Fields → Result Fields

pub record MetaService : Type 1 where
  pub repo : Repository
  pub cm_cli : CmClient
  pub crypto : Option Encrypter
  pub libraries : Libraries
