-- ===== src/Meta/Postgres/People.antt =====
-- postgres.go: users, agents and plugins.
use n.Base.{ℕ, not, List, [], ◌∷◌, Option, none, some, Bytes, codes, if◌then◌else◌}
use n.Job.Backend.{Error, wrap, Result, ok, err}
use n.Meta.Types.{PluginDefinition, User, Agent}
use n.Meta.Postgres.{
  Cell, uuid, str, bool, time, null, Scanned, row, no_rows, duplicate, failed, Database, inserted,
  selected, listed, executed, insert_plugin, insert_tenant_plugin, insert_user,
  select_user_by_email, select_user_by_id, insert_agent, select_agents, select_agent, update_agent,
}

module _ (db : Database) where
  -- Behind the INSERT into `plugin_definitions`.
  abbrev pub enabled : Bytes → Result ℕ × db.State → Result Bytes × db.State
  enabled id (err e, s) = (err (wrap (codes "enable tenant plugin") e), s)
  enabled id (ok k, s) = (ok id, s)

  abbrev pub enabled_for : PluginDefinition → Result Bytes × db.State → Result Bytes × db.State
  enabled_for p (err e, s) = (err e, s)
  enabled_for p (ok id, s) =
      if not p.is_global
      then enabled id (db.exec insert_tenant_plugin (str p.tenant_id ∷ uuid id ∷ []) s)
      else (ok id, s)

  -- `RegisterPlugin`.
  unfoldable pub register_plugin : PluginDefinition → db.State → Result Bytes × db.State
  register_plugin p s = enabled_for p (
      inserted db (codes "plugin already exists") (codes "insert plugin") (
        db.insert_row insert_plugin
          (str p.plugin_type
            ∷ str p.name
            ∷ str p.version
            ∷ str p.author
            ∷ str p.endpoint
            ∷ str p.protocol
            ∷ str p.status
            ∷ str p.tenant_id
            ∷ bool p.is_global
            ∷ [])
          s))

  -- `CreateUser`.
  unfoldable pub create_user : Bytes → Bytes → Bytes → Bytes → db.State → Result Bytes × db.State
  create_user email password_hash password_salt role s =
      inserted db (codes "user already exists") (codes "insert user") (
        db.insert_row insert_user
          (str email ∷ str password_hash ∷ str password_salt ∷ str role ∷ []) s)

  abbrev pub read_user : List Cell → Result User
  read_user (uuid id ∷ str email ∷ str hash ∷ str salt ∷ str role ∷ time t ∷ []) = ok (record {
    id = id;
    email = email;
    password_hash = hash;
    password_salt = salt;
    role = role;
    created_at = t;
  })
  read_user cells = err (wrap (codes "query user") db.scan_error)

  -- `GetUserByEmail`.
  unfoldable pub get_user_by_email : Bytes → db.State → Result (Option User)
  get_user_by_email email s =
      selected db (codes "query user") read_user
        (db.select_row select_user_by_email (str email ∷ []) s)

  -- `GetUserByID`.
  unfoldable pub get_user_by_id : Bytes → db.State → Result (Option User)
  get_user_by_id id s =
      selected db (codes "query user") read_user (db.select_row select_user_by_id (str id ∷ []) s)

  -- An INSERT of an agent has no name for a violated key.
  abbrev pub inserted_agent : Scanned × db.State → Result Bytes × db.State
  inserted_agent (row (uuid id ∷ []), s) = (ok id, s)
  inserted_agent (row cells, s) = (err (wrap (codes "insert agent") db.scan_error), s)
  inserted_agent (no_rows, s) = (err (wrap (codes "insert agent") db.no_rows_error), s)
  inserted_agent (duplicate e, s) = (err (wrap (codes "insert agent") e), s)
  inserted_agent (failed e, s) = (err (wrap (codes "insert agent") e), s)

  -- `CreateAgent`.
  unfoldable pub create_agent : Bytes → Bytes → db.State → Result Bytes × db.State
  create_agent user_id name s =
      inserted_agent (db.insert_row insert_agent (uuid user_id ∷ str name ∷ []) s)

  abbrev pub agent_of : Bytes → Bytes → Bytes → Option Bytes → Bytes → ℕ → Agent
  agent_of id user name jti status t = record {
    id = id;
    user_id = user;
    name = name;
    token_jti = jti;
    status = status;
    created_at = t;
  }

  abbrev pub read_agent : Bytes → List Cell → Result Agent
  read_agent prefix (uuid id ∷ uuid user ∷ str name ∷ str jti ∷ str status ∷ time t ∷ []) =
      ok (agent_of id user name (some jti) status t)
  read_agent prefix (uuid id ∷ uuid user ∷ str name ∷ null ∷ str status ∷ time t ∷ []) =
      ok (agent_of id user name none status t)
  read_agent prefix cells = err (wrap prefix db.scan_error)

  -- `ListAgentsByUser`.
  unfoldable pub list_agents_by_user : Bytes → db.State → Result (List Agent)
  list_agents_by_user user_id s =
      listed db (codes "query agents") (codes "iterate agents") (read_agent (codes "scan agent"))
        (db.select_rows select_agents (str user_id ∷ []) s)

  -- `GetAgent`.
  unfoldable pub get_agent : Bytes → db.State → Result (Option Agent)
  get_agent id s =
      selected db (codes "query agent") (read_agent (codes "query agent"))
        (db.select_row select_agent (str id ∷ []) s)

  -- `UpdateAgentTokenJTI`.
  unfoldable pub update_agent_token_jti : Bytes → Bytes → db.State → Option Error × db.State
  update_agent_token_jti id jti s =
      executed db (codes "update agent jti") (db.exec update_agent (str jti ∷ str id ∷ []) s)
