-- ===== src/Meta/Postgres/Refinement.antt =====
-- postgres.go as the `Repository` of the service: it finds what it has created.
use n.Base.{ℕ, ◌≡◌, refl, ◌∙◌, [], ◌∷◌, Option, Bytes}
use n.Job.Backend.{Result, ok, err}
use n.Shared.Crypto.{Encrypter}
use n.Meta.Types.{Connection, Repository, CmClient, Libraries, MetaService}
use n.Meta.App.Connections.{Stored}
use n.Meta.Users.Login.{Account}
use n.Meta.Postgres.{
  uuid, str, json, int, bool, time, null, Scanned, row, no_rows, duplicate, failed, Database,
  inserted, selected, insert_connection, select_connection, insert_user, select_user_by_email,
}
use n.Meta.Postgres.Connections
use n.Meta.Postgres.Connections.{inserted_for, inserted_in, inserted_with}
use n.Meta.Postgres.People

-- `NewPostgresRepositoryFromDSN`, for an open pool.
abbrev pub postgres : Database → Repository
postgres db = record {
  State = db.State;
  list_workspaces = Connections.list_workspaces db;
  get_schema_snapshot = Connections.get_schema_snapshot db;
  save_schema_snapshot = Connections.save_schema_snapshot db;
  create_connection = Connections.create_connection db;
  get_connection = Connections.get_connection db;
  list_connections = Connections.list_connections db;
  delete_connection = Connections.delete_connection db;
  register_plugin = People.register_plugin db;
  create_user = People.create_user db;
  get_user_by_email = People.get_user_by_email db;
  get_user_by_id = People.get_user_by_id db;
  create_workspace = Connections.create_workspace db;
  create_agent = People.create_agent db;
  list_agents_by_user = People.list_agents_by_user db;
  get_agent = People.get_agent db;
  update_agent_token_jti = People.update_agent_token_jti db;
}

module _ (db : Database) where
  inserted-ok :
      (exists prefix id : Bytes) (s : db.State) (out : Scanned × db.State)
      → inserted db exists prefix out ≡ (ok id, s)
      → out ≡ (row (uuid id ∷ []), s)
  inserted-ok exists prefix id s (row [], t) h = cc h
  inserted-ok exists prefix id s (row (uuid i ∷ []), t) h = cc h
  inserted-ok exists prefix id s (row (uuid i ∷ c ∷ cs), t) h = cc h
  inserted-ok exists prefix id s (row (str x ∷ cs), t) h = cc h
  inserted-ok exists prefix id s (row (json x ∷ cs), t) h = cc h
  inserted-ok exists prefix id s (row (int x ∷ cs), t) h = cc h
  inserted-ok exists prefix id s (row (bool x ∷ cs), t) h = cc h
  inserted-ok exists prefix id s (row (time x ∷ cs), t) h = cc h
  inserted-ok exists prefix id s (row (null ∷ cs), t) h = cc h
  inserted-ok exists prefix id s (no_rows, t) h = cc h
  inserted-ok exists prefix id s (duplicate e, t) h = cc h
  inserted-ok exists prefix id s (failed e, t) h = cc h

  -- What an answered creation has inserted.
  record Insertion (c : Connection) (id : Bytes) (s s' : db.State) : Type 0 where
    config : Bytes
    ws : Bytes
    user : Bytes
    marshalled : db.marshal_params c.params ≡ ok config
    was_inserted :
        db.insert_row insert_connection
          (uuid ws
            ∷ uuid user
            ∷ str c.tenant_id
            ∷ str c.name
            ∷ str c.adapter_type
            ∷ json config
            ∷ [])
          s
        ≡ (row (uuid id ∷ []), s')

  inserted_for-Insertion :
      (c : Connection) (config ws id : Bytes) (s s' : db.State) (found : Result Bytes)
      → db.marshal_params c.params ≡ ok config
      → inserted_for db c config ws s found ≡ (ok id, s')
      → Insertion c id s s'
  inserted_for-Insertion c config ws id s s' (err e) m h = cc h
  inserted_for-Insertion c config ws id s s' (ok user) m h = record {
    config = config;
    ws = ws;
    user = user;
    marshalled = m;
    was_inserted = inserted-ok _ _ id s' _ h;
  }

  inserted_in-Insertion :
      (c : Connection) (config id : Bytes) (s s' : db.State) (found : Result Bytes)
      → db.marshal_params c.params ≡ ok config
      → inserted_in db c config s found ≡ (ok id, s')
      → Insertion c id s s'
  inserted_in-Insertion c config id s s' (err e) m h = cc h
  inserted_in-Insertion c config id s s' (ok ws) m h =
      inserted_for-Insertion c config ws id s s' _ m h

  inserted_with-Insertion :
      (c : Connection) (id : Bytes) (s s' : db.State) (found : Result Bytes)
      → db.marshal_params c.params ≡ found
      → inserted_with db c s found ≡ (ok id, s')
      → Insertion c id s s'
  inserted_with-Insertion c id s s' (err e) m h = cc h
  inserted_with-Insertion c id s s' (ok config) m h = inserted_in-Insertion c config id s s' _ m h

  create_connection-Insertion :
      (c : Connection) (id : Bytes) (s s' : db.State)
      → Connections.create_connection db c s ≡ (ok id, s')
      → Insertion c id s s'
  unfolding Connections.create_connection
  create_connection-Insertion c id s s' h = inserted_with-Insertion c id s s' _ refl h

  -- The row of a connection, whose configuration is read as `config` is: a JSONB column does not
  -- keep the text.
  pub record HasConnection (id ws tenant name adapter config : Bytes) (s : db.State) : Type 0 where
    pub stored_config : Bytes
    pub created_at : ℕ
    pub reads_alike : db.unmarshal_params stored_config ≡ db.unmarshal_params config
    pub found :
        db.select_row select_connection (str id ∷ str tenant ∷ []) s
        ≡ row (
            uuid id
            ∷ uuid ws
            ∷ str tenant
            ∷ str name
            ∷ str adapter
            ∷ json stored_config
            ∷ time created_at
            ∷ [])

module _ (db : Database) (cm : CmClient) (crypto : Option Encrypter) (libraries : Libraries) where
  -- The service over PostgreSQL.
  abbrev pub service : MetaService
  service = record { repo = postgres db; cm_cli = cm; crypto = crypto; libraries = libraries }

  -- If the SELECT of a connection finds, under the ID and the tenant, the row whose INSERT has
  -- answered the ID, with a configuration that is read alike, and JSON reads back the parameters
  -- that it has written, then the repository finds the connection that it has created, with its
  -- tenant, name, adapter and parameters: it is one as the service relies on.
  pub create_connection-Stored :
      (c : Connection) (id : Bytes) (s s' : db.State)
      → ((ws user tenant name adapter config i : Bytes) (old new : db.State)
          → db.insert_row insert_connection
              (uuid ws ∷ uuid user ∷ str tenant ∷ str name ∷ str adapter ∷ json config ∷ [])
              old
            ≡ (row (uuid i ∷ []), new)
          → HasConnection db i ws tenant name adapter config new)
      → ((p : Bytes) → db.marshal_params c.params ≡ ok p → db.unmarshal_params p ≡ ok c.params)
      → Connections.create_connection db c s ≡ (ok id, s')
      → Stored service id c s'
  unfolding Connections.get_connection
  create_connection-Stored c id s s' sql reads h =
      let i = create_connection-Insertion db c id s s' h in
      let f = sql i.ws i.user c.tenant_id c.name c.adapter_type i.config id s s' i.was_inserted in
      record {
        stored = record c { id = id; workspace_id = i.ws; user_id = []; created_at = f.created_at };
        found = rw f.found (rw (f.reads_alike ∙ reads i.config i.marshalled, selected) refl);
        id_is = refl;
        tenant_is = refl;
        name_is = refl;
        adapter_is = refl;
        params_are = refl;
      }

  -- If the SELECT of a user finds, under the address, the row whose INSERT has answered the ID,
  -- then the repository finds the user that it has created, with the hash, the salt and the role.
  pub create_user-Account :
      (email hash salt role id : Bytes) (s s' : db.State)
      → ((e h t r i : Bytes) (old new : db.State)
          → db.insert_row insert_user (str e ∷ str h ∷ str t ∷ str r ∷ []) old
            ≡ (row (uuid i ∷ []), new)
          → (at : ℕ) × (db.select_row select_user_by_email (str e ∷ []) new
              ≡ row (uuid i ∷ str e ∷ str h ∷ str t ∷ str r ∷ time at ∷ [])))
      → People.create_user db email hash salt role s ≡ (ok id, s')
      → Account service id email hash salt role s'
  unfolding People.create_user People.get_user_by_email
  create_user-Account email hash salt role id s s' sql h =
      let (t, f) = sql email hash salt role id s s' (inserted-ok db _ _ id s' _ h) in
      record {
        user = record {
          id = id;
          email = email;
          password_hash = hash;
          password_salt = salt;
          role = role;
          created_at = t;
        };
        found = rw f refl;
        id_is = refl;
        hash_is = refl;
        salt_is = refl;
        role_is = refl;
      }
