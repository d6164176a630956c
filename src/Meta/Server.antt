-- ===== src/Meta/Server.antt =====
-- internal/server/grpc.go: the methods of `GRPCServer` over `MetaService`. A request on a nil list
-- of parameters has the empty one, as `AsMap` gives it.
pub mod Creation
use n.Base.{
  ℕ, Bool, true, false, ◌||◌, List, [], ◌∷◌, map, Option, none, some, Bytes, Signed, codes, length,
  is_empty, trim_space, int32_of, if◌then◌else◌, ◌%◌, ◌^◌,
}
use n.Job.Backend.{Error, message, Result, ok, err}
use n.Worker.Value.{Fields}
use n.Meta.Types.{Workspace, TableInfo, SchemaSnapshot, MetaService, Connection, PluginDefinition}
use n.Meta.App.{
  create_connection, get_connection, list_connections, delete_connection, list_workspaces,
}
use n.Meta.Schema.{World, table_of, get_schema}
use n.Meta.Plugins.{register_plugin}

-- `status.Error` with its code, or an error that gRPC answers as Unknown.
pub data Failure : Type 0 where
  invalid_argument : Bytes → Failure
  unknown : Error → Failure

pub data Reply (A : Type 0) : Type 0 where
  answered : A → Reply A
  failed : Failure → Reply A

-- `pb.Connection`.
pub record PbConnection : Type 0 where
  pub id : Bytes
  pub workspace_id : Bytes
  pub tenant_id : Bytes
  pub name : Bytes
  pub adapter_type : Bytes
  pub params : Option Fields
  pub created_at : ℕ

pub record PbSnapshot : Type 0 where
  pub connection_id : Bytes
  pub tables : List TableInfo

pub record Pagination : Type 0 where
  pub limit : Signed
  pub offset : Signed

pub record ListMeta : Type 0 where
  pub total : Signed
  pub limit : Signed
  pub offset : Signed

pub record CreateConnectionRequest : Type 0 where
  pub workspace_id : Bytes
  pub tenant_id : Bytes
  pub name : Bytes
  pub adapter_type : Bytes
  pub params : Fields

pub record RegisterPluginRequest : Type 0 where
  pub plugin_type : Bytes
  pub name : Bytes
  pub version : Bytes
  pub endpoint : Bytes
  pub protocol : Bytes
  pub tenant_id : Bytes
  pub is_global : Bool

abbrev pub lacks_ids : Bytes → Bytes → Bool
lacks_ids connection_id tenant_id =
    is_empty (trim_space connection_id) || is_empty (trim_space tenant_id)

abbrev pub missing_ids : {A : Type 0} → Reply A
missing_ids = failed (invalid_argument (codes "connection_id and tenant_id are required"))

abbrev pub reply_of : {A : Type 0} → Result A → Reply A
reply_of (ok x) = answered x
reply_of (err e) = failed (unknown e)

abbrev pub page_of : Option Pagination → Pagination
page_of none = record { limit = (false, 20); offset = (false, 0) }
page_of (some p) = p

abbrev pub meta_of : Option Pagination → ℕ → ListMeta
unfolding int32_of
meta_of p total = record {
  total = int32_of (false, total);
  limit = (page_of p).limit;
  offset = (page_of p).offset;
}

abbrev pub snapshot_of : SchemaSnapshot → PbSnapshot
unfolding table_of
snapshot_of snap = record { connection_id = snap.connection_id; tables = map table_of snap.tables }

-- A deletion as a reply.
abbrev pub deletion_of : {S : Type 0} → Option Error × S → Reply Bool × S
deletion_of (some e, s) = (failed (unknown e), s)
deletion_of (none, s) = (answered true, s)

-- The ID and the status of a registered plugin.
abbrev pub registration_of : {S : Type 0} → Result Bytes × S → Reply (Bytes × Bytes) × S
registration_of (err e, s) = (failed (unknown e), s)
registration_of (ok id, s) = (answered (id, codes "validated"), s)

module _ (svc : MetaService) where
  abbrev pub struct_of : Result Fields → Option Fields
  struct_of (ok params) = some params
  struct_of (err e) = none

  -- `toProtoConnection` of a connection that is not nil.
  unfoldable pub to_proto_connection : Connection → PbConnection
  to_proto_connection c = record {
    id = c.id;
    workspace_id = c.workspace_id;
    tenant_id = c.tenant_id;
    name = c.name;
    adapter_type = c.adapter_type;
    params = struct_of (svc.libraries.new_struct c.params);
    created_at = c.created_at;
  }

  abbrev pub proto_of : Option Connection → Option PbConnection
  unfolding to_proto_connection
  proto_of none = none
  proto_of (some c) = some (to_proto_connection c)

  abbrev pub connection_reply : Result (Option Connection) → Reply (Option PbConnection)
  connection_reply (err e) = failed (unknown e)
  connection_reply (ok found) = answered (proto_of found)

  abbrev pub schema_reply : Result SchemaSnapshot × World svc → Reply PbSnapshot × World svc
  schema_reply (err e, w) = (failed (unknown e), w)
  schema_reply (ok snap, w) = (answered (snapshot_of snap), w)

  -- `GetSchema`, whose service never answers a nil snapshot.
  unfoldable pub serve_schema : ℕ → Bytes → Bytes → World svc → Reply PbSnapshot × World svc
  serve_schema now connection_id tenant_id w =
      if lacks_ids connection_id tenant_id
      then (missing_ids, w)
      else schema_reply (get_schema svc now connection_id tenant_id w)

  abbrev pub workspaces_reply :
      Option Pagination → Result (List Workspace) → Reply (List Workspace × ListMeta)
  workspaces_reply p (err e) = failed (unknown e)
  workspaces_reply p (ok found) = answered (found, meta_of p (length found))

  -- `ListWorkspaces`.
  unfoldable pub serve_workspaces :
      Bytes → Option Pagination → svc.repo.State → Reply (List Workspace × ListMeta)
  serve_workspaces tenant_id p s =
      workspaces_reply p (list_workspaces svc tenant_id (page_of p).limit (page_of p).offset s)

  abbrev pub requested : CreateConnectionRequest → Connection
  requested req = record {
    id = [];
    workspace_id = req.workspace_id;
    user_id = req.tenant_id;
    tenant_id = req.tenant_id;
    name = req.name;
    adapter_type = req.adapter_type;
    params = req.params;
    created_at = 0;
  }

  abbrev pub created_reply :
      Bytes → Result Bytes × svc.repo.State → Reply (Option PbConnection) × svc.repo.State
  created_reply tenant_id (err e, s) = (failed (unknown e), s)
  created_reply tenant_id (ok id, s) = (connection_reply (get_connection svc id tenant_id s), s)

  -- `CreateConnection`.
  unfoldable pub serve_creation :
      ℕ → CreateConnectionRequest → svc.repo.State → Reply (Option PbConnection) × svc.repo.State
  serve_creation now req s =
      created_reply req.tenant_id (create_connection svc now (requested req) s)

  -- `GetConnection`.
  unfoldable pub serve_connection : Bytes → Bytes → svc.repo.State → Reply (Option PbConnection)
  serve_connection connection_id tenant_id s =
      if lacks_ids connection_id tenant_id
      then missing_ids
      else connection_reply (get_connection svc connection_id tenant_id s)

  abbrev pub connections_reply :
      Option Pagination → Result (List Connection) → Reply (List PbConnection × ListMeta)
  unfolding to_proto_connection
  connections_reply p (err e) = failed (unknown e)
  connections_reply p (ok found) =
      answered (map to_proto_connection found, meta_of p (length found))

  -- `ListConnections`.
  unfoldable pub serve_connections :
      Bytes → Bytes → Option Pagination → svc.repo.State → Reply (List PbConnection × ListMeta)
  serve_connections tenant_id workspace_id p s =
      connections_reply p
        (list_connections svc tenant_id workspace_id (page_of p).limit (page_of p).offset s)

  -- `DeleteConnection`.
  unfoldable pub serve_deletion : Bytes → Bytes → svc.repo.State → Reply Bool × svc.repo.State
  serve_deletion connection_id tenant_id s =
      if lacks_ids connection_id tenant_id
      then (missing_ids, s)
      else deletion_of (delete_connection svc connection_id tenant_id s)

  abbrev pub definition_of : RegisterPluginRequest → PluginDefinition
  definition_of req = record {
    plugin_type = req.plugin_type;
    name = req.name;
    version = req.version;
    author = [];
    endpoint = req.endpoint;
    protocol = req.protocol;
    status = [];
    tenant_id = req.tenant_id;
    is_global = req.is_global;
    created_at = 0;
  }

  -- `RegisterPlugin`.
  unfoldable pub serve_registration :
      ℕ → RegisterPluginRequest → svc.repo.State → Reply (Bytes × Bytes) × svc.repo.State
  serve_registration now req s = registration_of (register_plugin svc now (definition_of req) s)
