-- ===== src/Gateway/Mcp.antt =====
-- mcp.go: the tools of the MCP server. The MCP library reads a request as a call of a tool and
-- writes the tool's result, or its error, as the response.
use n.Base.{
  false, List, [], ◌∷◌, ◌++◌, map, Option, none, some, Bytes, codes, is_empty, trim_space, int32_of,
  is_positive, Signed, if◌then◌else◌,
}
use n.Job.Backend.{message, Result, ok, err}
use n.Query.{SubmitQueryRequest}
use n.Shared.Jwt.{Claims}
use n.Gateway.Types.{
  Request, Connection, Pagination, Call, get_schema, submit_query, get_job_status, get_job_result,
  list_connections, list_workspaces, ToolOutput, snapshot_output, submitted_output, status_output,
  result_output, connections_output, workspaces_output, raw, tool, Handled, ToolCall,
  get_schema_tool, submit_query_tool, get_query_status_tool, get_query_result_tool,
  list_connections_tool, list_workspaces_tool, Environment,
}
use n.Gateway.Handlers.{get_user_id, json_type}

-- `requiredMCPValue`.
abbrev pub required_value : Bytes → Bytes → Result Bytes
required_value name value =
    let trimmed = trim_space value in
    if is_empty trimmed then err (message (name ++ codes " is required")) else ok trimmed

-- `max(offset, 0)` as an int32.
abbrev pub offset_of : Signed → Signed
offset_of offset = int32_of (if is_positive offset then offset else (false, 0))

module _ (env : Environment) where
  abbrev pub Out : Type 0
  Out = Option Call × Result (ToolOutput env.Opaque)

  abbrev pub forwarded {ℓ} :
      {A : Type ℓ} → Call → (A → Result (ToolOutput env.Opaque)) → Result A → Out
  forwarded call output (err e) = (some call, err e)
  forwarded call output (ok a) = (some call, output a)

  abbrev pub snapshot_of : Bytes → Option env.Opaque → Result (ToolOutput env.Opaque)
  snapshot_of id none = err (message (codes "schema not found for connection " ++ env.quoted id))
  snapshot_of id (some s) = ok (snapshot_output s)

  abbrev pub schema_for : Bytes → Result Bytes → Out
  schema_for tenant (err e) = (none, err e)
  schema_for tenant (ok id) =
      forwarded (get_schema id tenant) (snapshot_of id) (env.get_schema id tenant)

  -- `mcpGetSchema`.
  unfoldable pub mcp_get_schema : Bytes → Bytes → Out
  mcp_get_schema tenant id = schema_for tenant (required_value (codes "connection_id") id)

  abbrev pub submit_sql : Bytes → Bytes → Result Bytes → Out
  submit_sql tenant id (err e) = (none, err e)
  submit_sql tenant id (ok sql) =
      let req : SubmitQueryRequest = record { tenant_id = tenant; connection_id = id; sql = sql } in
      forwarded (submit_query req) (λ r. ok (submitted_output r.job_id r.status))
        (env.submit_query req)

  abbrev pub submit_for : Bytes → Bytes → Result Bytes → Out
  submit_for tenant sql (err e) = (none, err e)
  submit_for tenant sql (ok id) = submit_sql tenant id (required_value (codes "sql") sql)

  -- `mcpSubmitQuery`.
  unfoldable pub mcp_submit_query : Bytes → Bytes → Bytes → Out
  mcp_submit_query tenant id sql = submit_for tenant sql (required_value (codes "connection_id") id)

  abbrev pub status_for : Bytes → Result Bytes → Out
  status_for tenant (err e) = (none, err e)
  status_for tenant (ok id) =
      forwarded (get_job_status id tenant)
        (λ r. ok (status_output r.job_id r.status r.error_message)) (env.get_job_status id tenant)

  -- `mcpGetJobStatus`.
  unfoldable pub mcp_get_job_status : Bytes → Bytes → Out
  mcp_get_job_status tenant id = status_for tenant (required_value (codes "job_id") id)

  -- The rows that are not nil.
  abbrev pub present : {A : Type 0} → List (Option A) → List A
  present [] = []
  present (none ∷ rest) = present rest
  present (some a ∷ rest) = a ∷ present rest

  abbrev pub result_for : Bytes → Signed → Signed → Result Bytes → Out
  result_for tenant page size (err e) = (none, err e)
  result_for tenant page size (ok id) =
      forwarded (get_job_result id tenant (int32_of page) (int32_of size))
        (λ r. ok (result_output r.job_id (present r.rows) r.next_page_token r.truncated))
        (env.get_job_result id tenant (int32_of page) (int32_of size))

  -- `mcpGetJobResult`.
  unfoldable pub mcp_get_job_result : Bytes → Bytes → Signed → Signed → Out
  mcp_get_job_result tenant id page size =
      result_for tenant page size (required_value (codes "job_id") id)

  abbrev pub page_of : Signed → Signed → Pagination
  page_of limit offset = record {
    limit = int32_of (if is_positive limit then limit else (false, 20));
    offset = offset_of offset;
  }

  abbrev pub connection_of : Connection env.Opaque → Bytes × Bytes × Bytes × Bytes
  connection_of c = (c.id, c.workspace_id, c.name, c.adapter_type)

  -- `mcpListConnections`.
  unfoldable pub mcp_list_connections : Bytes → Bytes → Signed → Signed → Out
  mcp_list_connections tenant workspace limit offset =
      forwarded (list_connections tenant workspace (page_of limit offset))
        (λ found. ok (connections_output (map connection_of (present found.0))))
        (env.list_connections tenant workspace (page_of limit offset))

  -- `mcpListWorkspaces`.
  unfoldable pub mcp_list_workspaces : Bytes → Signed → Signed → Out
  mcp_list_workspaces tenant limit offset =
      forwarded (list_workspaces tenant (page_of limit offset))
        (λ found. ok (workspaces_output (map (λ w. (w.id, w.name)) (present found.0))))
        (env.list_workspaces tenant (page_of limit offset))

  -- The tools of `newMCPHandler`; the tenant is that of `mcpTenantID`.
  unfoldable pub call_tool : Bytes → ToolCall → Out
  call_tool tenant (get_schema_tool id) = mcp_get_schema tenant id
  call_tool tenant (submit_query_tool id sql) = mcp_submit_query tenant id sql
  call_tool tenant (get_query_status_tool id) = mcp_get_job_status tenant id
  call_tool tenant (get_query_result_tool id page size) = mcp_get_job_result tenant id page size
  call_tool tenant (list_connections_tool workspace limit offset) =
      mcp_list_connections tenant workspace limit offset
  call_tool tenant (list_workspaces_tool limit offset) = mcp_list_workspaces tenant limit offset

  abbrev pub told : Out → Handled env.Opaque
  told (call, output) = record {
    call = call;
    response = record { status = 200; headers = json_type env; body = tool output };
  }

  abbrev pub read : Bytes → Option ToolCall → Handled env.Opaque
  read tenant none = record {
    call = none;
    response = record { status = 400; headers = []; body = raw [] };
  }
  read tenant (some t) = told (call_tool tenant t)

  -- The MCP handler, where the library has read the request as a call of a tool.
  unfoldable pub handle_mcp : Option Claims → Request → Handled env.Opaque
  handle_mcp who r = read (get_user_id who) (env.read_tool r)
