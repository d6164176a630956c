-- ===== src/Meta/Server/Creation.antt =====
-- internal/server/grpc.go: what `CreateConnection` answers.
use n.Base.{ℕ, ◌≡◌, refl, some, Bytes, length}
use n.Job.Backend.{ok}
use n.Meta.Types.{Connection, MetaService}
use n.Meta.App.{create_connection}
use n.Meta.App.Connections.{Stored, Got, get_connection-create_connection}
use n.Meta.Server.{
  answered, PbConnection, CreateConnectionRequest, requested, struct_of, to_proto_connection,
  serve_creation,
}

module _ (svc : MetaService) where
  -- A creation that is answered with the connection that was asked for.
  pub record Created (now : ℕ) (req : CreateConnectionRequest) (id : Bytes) (s s' : svc.repo.State)
      : Type 0 where
    pub connection : PbConnection
    pub reply_is : serve_creation svc now req s ≡ (answered (some connection), s')
    pub id_is : connection.id ≡ id
    pub tenant_is : connection.tenant_id ≡ req.tenant_id
    pub name_is : connection.name ≡ req.name
    pub adapter_is : connection.adapter_type ≡ req.adapter_type
    pub params_are : connection.params ≡ struct_of svc (svc.libraries.new_struct req.params)

  reply-Created :
      (now : ℕ) (req : CreateConnectionRequest) (id : Bytes) (s s' : svc.repo.State)
      → create_connection svc now (requested svc req) s ≡ (ok id, s')
      → Got svc id (requested svc req) s'
      → Created now req id s s'
  unfolding serve_creation to_proto_connection
  reply-Created now req id s s' h g = record {
    connection = to_proto_connection svc g.connection;
    reply_is = rw h (rw g.answer_is refl);
    id_is = g.id_is;
    tenant_is = g.tenant_is;
    name_is = g.name_is;
    adapter_is = g.adapter_is;
    params_are = rw g.params_are refl;
  }

  -- If the cryptographic library reads back what it writes and the repository finds, under the ID
  -- and the tenant, what it has created, then a request whose connection the service has created
  -- is answered with that connection: its tenant, name and adapter, and all its parameters, which
  -- have been at rest encrypted.
  pub serve_creation-Created :
      (now : ℕ) (req : CreateConnectionRequest) (id : Bytes) (s s' : svc.repo.State)
      → ((k : ℕ) (x : Bytes) → svc.libraries.cipher.read_random k ≡ ok x → length x ≡ k)
      → ((gcm : svc.libraries.cipher.Gcm) (x p : Bytes)
          → length x ≡ svc.libraries.cipher.nonce_size gcm
          → svc.libraries.cipher.open_sealed gcm x (svc.libraries.cipher.seal gcm x p) ≡ ok p)
      → ((x : Bytes)
          → svc.libraries.cipher.decode_base64 (svc.libraries.cipher.encode_base64 x) ≡ ok x)
      → ((p : Bytes)
          → svc.libraries.cipher.marshal req.params ≡ ok p
          → svc.libraries.cipher.unmarshal p ≡ ok req.params)
      → ((d : Connection) (i : Bytes) (old new : svc.repo.State)
          → svc.repo.create_connection d old ≡ (ok i, new)
          → Stored svc i d new)
      → create_connection svc now (requested svc req) s ≡ (ok id, s')
      → Created now req id s s'
  serve_creation-Created now req id s s' r g b j w h =
      reply-Created now req id s s' h
        (get_connection-create_connection svc now (requested svc req) id s s' r g b j w h)
