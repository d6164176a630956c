-- ===== src/Gateway/Types.antt =====
-- gateway.go: what the gateway is given and what it sends. A client answers a response or an error,
-- never nil. A header list, a query string and a URL are read and written by the library, in
-- `Environment`; a time and an ID in a response are of its type `Opaque`.
use n.Base.{ℕ, Bool, List, Option, Bytes, Signed}
use n.Job.Backend.{Error, Result}
use n.Query.{SubmitQueryRequest}
use n.Shared.Jwt.{Manager, Library}
use n.Worker.Value.{Fields}

pub record Request : Type 0 where
  pub method : Bytes
  pub path : Bytes
  pub raw_query : Bytes
  pub headers : List (Bytes × Bytes)
  pub body : Bytes

pub record Connection (Opaque : Type 0) : Type 0 where
  pub id : Bytes
  pub workspace_id : Bytes
  pub tenant_id : Bytes
  pub name : Bytes
  pub adapter_type : Bytes
  pub params : Option Fields
  pub created_at : Opaque

pub record CreateConnectionRequest : Type 0 where
  pub workspace_id : Bytes
  pub tenant_id : Bytes
  pub name : Bytes
  pub adapter_type : Bytes
  pub params : Option Fields

pub record RegisterPluginRequest : Type 0 where
  pub plugin_type : Bytes
  pub name : Bytes
  pub version : Bytes
  pub endpoint : Bytes
  pub protocol : Bytes
  pub tenant_id : Bytes
  pub is_global : Bool

pub record Proxied : Type 0 where
  pub method : Bytes
  pub url : Bytes
  pub raw_query : Bytes
  pub headers : List (Bytes × Bytes)
  pub body : Bytes

pub record Pagination : Type 0 where
  pub limit : Signed
  pub offset : Signed

-- A request that the gateway sends to another service.
pub data Call : Type 0 where
  get_schema : Bytes → Bytes → Call
  submit_query : SubmitQueryRequest → Call
  get_job_status : Bytes → Bytes → Call
  get_job_result : Bytes → Bytes → Signed → Signed → Call
  test_connection : Bytes → Fields → Call
  create_connection : CreateConnectionRequest → Call
  list_connections : Bytes → Bytes → Pagination → Call
  get_connection : Bytes → Bytes → Call
  delete_connection : Bytes → Bytes → Call
  register_plugin : RegisterPluginRequest → Call
  list_workspaces : Bytes → Pagination → Call
  proxied : Proxied → Call

pub record Submitted : Type 0 where
  pub job_id : Bytes
  pub status : Bytes

pub record JobStatus : Type 0 where
  pub job_id : Bytes
  pub status : Bytes
  pub error_message : Bytes

pub record JobResult (Opaque : Type 0) : Type 0 where
  pub job_id : Bytes
  pub rows : List (Option Opaque)
  pub next_page_token : Bytes
  pub truncated : Bool

pub record Workspace (Opaque : Type 0) : Type 0 where
  pub id : Bytes
  pub name : Bytes
  pub rest : Opaque

pub record Replied : Type 0 where
  pub status : ℕ
  pub headers : List (Bytes × Bytes)
  pub body : Bytes

-- The object that the login of the Meta Service answers with.
pub record User : Type 0 where
  pub user_id : Bytes
  pub email : Bytes
  pub role : Bytes

-- What a tool of the MCP server answers with.
pub data ToolOutput (Opaque : Type 0) : Type 0 where
  snapshot_output : Opaque → ToolOutput Opaque
  submitted_output : Bytes → Bytes → ToolOutput Opaque
  status_output : Bytes → Bytes → Bytes → ToolOutput Opaque
  result_output : Bytes → List Opaque → Bytes → Bool → ToolOutput Opaque
  connections_output : List (Bytes × Bytes × Bytes × Bytes) → ToolOutput Opaque
  workspaces_output : List (Bytes × Bytes) → ToolOutput Opaque

-- What is encoded into the body of a response.
pub data Body (Opaque : Type 0) : Type 0 where
  raw : Bytes → Body Opaque
  opaque : Opaque → Body Opaque
  snapshot : Option Opaque → Body Opaque
  submitted : Submitted → Body Opaque
  job_status : JobStatus → Body Opaque
  job_result : JobResult Opaque → Body Opaque
  connection : Option (Connection Opaque) → Body Opaque
  connections : List (Option (Connection Opaque)) → Opaque → Body Opaque
  workspaces : List (Option (Workspace Opaque)) → Opaque → Body Opaque
  logged_in : User → Bytes → Body Opaque
  agent_token : Bytes → Bytes → Body Opaque
  tool : Result (ToolOutput Opaque) → Body Opaque

pub record Response (Opaque : Type 0) : Type 0 where
  pub status : ℕ
  pub headers : List (Bytes × Bytes)
  pub body : Body Opaque

-- What a handler has done: the request it has sent on, if any, and its response.
pub record Handled (Opaque : Type 0) : Type 0 where
  pub call : Option Call
  pub response : Response Opaque

-- A tool call, as the MCP library has read it.
pub data ToolCall : Type 0 where
  get_schema_tool : Bytes → ToolCall
  submit_query_tool : Bytes → Bytes → ToolCall
  get_query_status_tool : Bytes → ToolCall
  get_query_result_tool : Bytes → Signed → Signed → ToolCall
  list_connections_tool : Bytes → Signed → Signed → ToolCall
  list_workspaces_tool : Signed → Signed → ToolCall

-- The services behind the gateway and the libraries that it calls.
pub record Environment : Type 1 where
  pub Opaque : Type 0
  pub jwt : Library
  pub now : ℕ
  pub token_id : Bytes
  pub get_header : List (Bytes × Bytes) → Bytes → Bytes
  pub query_get : Bytes → Bytes → Bytes
  pub query_set : Bytes → Bytes → Bytes → Bytes
  pub check_url : Bytes → Bytes → Option Error
  pub decode_query : Bytes → Option (Bytes × Bytes)
  pub decode_test : Bytes → Result (Bytes × Fields)
  pub decode_connection : Bytes → Result CreateConnectionRequest
  pub decode_plugin : Bytes → Result RegisterPluginRequest
  pub decode_user : Bytes → Result User
  pub new_struct : Fields → Result Fields
  pub get_schema : Bytes → Bytes → Result (Option Opaque)
  pub submit_query : SubmitQueryRequest → Result Submitted
  pub get_job_status : Bytes → Bytes → Result JobStatus
  pub get_job_result : Bytes → Bytes → Signed → Signed → Result (JobResult Opaque)
  pub test_connection : Bytes → Fields → Result Opaque
  pub create_connection : CreateConnectionRequest → Result (Option (Connection Opaque))
  pub list_connections :
      Bytes → Bytes → Pagination → Result (List (Option (Connection Opaque)) × Opaque)
  pub get_connection : Bytes → Bytes → Result (Option (Connection Opaque))
  pub delete_connection : Bytes → Bytes → Result Opaque
  pub register_plugin : RegisterPluginRequest → Result Opaque
  pub list_workspaces : Bytes → Pagination → Result (List (Option (Workspace Opaque)) × Opaque)
  pub send : Proxied → Result Replied
  pub read_tool : Request → Option ToolCall
  pub quoted : Bytes → Bytes

-- The fields of `Server` that its handlers read.
pub record Server : Type 0 where
  pub jwt_manager : Option Manager
  pub meta_http_base : Bytes
  pub allowed_origins : List Bytes
