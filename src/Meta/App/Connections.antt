-- ===== src/Meta/App/Connections.antt =====
-- internal/app/app.go: the parameters of a connection at rest, and read back.
use mathlib.Core.Path.{subst}
use n.Base.{ℕ, ◌≡◌, refl, ◌∙◌, some, Bytes, length, arith}
use n.Job.Backend.{Result, ok, err}
use n.Worker.Value.{Fields}
use n.Shared.Crypto.{Encrypter, encrypt_json, decrypt_json}
use n.Shared.Crypto.Roundtrip.{Sealed, encrypt_json-Sealed, decrypt_json-encrypt_json}
use n.Meta.Types.{Connection, MetaService}
use n.Meta.App.{with_params, dated, named_as, encrypted_as, create_connection, get_connection}

module _ (svc : MetaService) where
  -- The repository finds, under the ID and the tenant, a connection with the data of `c`.
  pub record Stored (id : Bytes) (c : Connection) (s : svc.repo.State) : Type 0 where
    pub stored : Connection
    pub found : svc.repo.get_connection id c.tenant_id s ≡ ok (some stored)
    pub id_is : stored.id ≡ id
    pub tenant_is : stored.tenant_id ≡ c.tenant_id
    pub name_is : stored.name ≡ c.name
    pub adapter_is : stored.adapter_type ≡ c.adapter_type
    pub params_are : stored.params ≡ c.params

  -- The service answers, under the ID and the tenant, a connection with the data of `c`.
  pub record Got (id : Bytes) (c : Connection) (s : svc.repo.State) : Type 0 where
    pub connection : Connection
    pub answer_is : get_connection svc id c.tenant_id s ≡ ok (some connection)
    pub id_is : connection.id ≡ id
    pub tenant_is : connection.tenant_id ≡ c.tenant_id
    pub name_is : connection.name ≡ c.name
    pub adapter_is : connection.adapter_type ≡ c.adapter_type
    pub params_are : connection.params ≡ c.params

  -- What an answered creation has handed to the repository.
  record Creation (now : ℕ) (c : Connection) (id : Bytes) (s s' : svc.repo.State) : Type 0 where
    params : Fields
    encrypted : encrypt_json svc.libraries.cipher svc.crypto c.params ≡ ok params
    was_created : svc.repo.create_connection (with_params (dated now c) params) s ≡ (ok id, s')

  named_as-ok :
      {A S : Type 0} (prefix : Bytes) (found : Result A × S) (x : A) (s : S)
      → named_as prefix found ≡ (ok x, s)
      → found ≡ (ok x, s)
  named_as-ok prefix (ok y, t) x s h = h
  named_as-ok prefix (err e, t) x s h = cc h

  encrypted_as-Creation :
      (now : ℕ) (c : Connection) (id : Bytes) (s s' : svc.repo.State) (found : Result Fields)
      → encrypt_json svc.libraries.cipher svc.crypto c.params ≡ found
      → encrypted_as svc (dated now c) found s ≡ (ok id, s')
      → Creation now c id s s'
  encrypted_as-Creation now c id s s' (err e) f h = cc h
  encrypted_as-Creation now c id s s' (ok params) f h = record {
    params = params;
    encrypted = f;
    was_created = named_as-ok _ _ id s' h;
  }

  create_connection-Creation :
      (now : ℕ) (c : Connection) (id : Bytes) (s s' : svc.repo.State)
      → create_connection svc now c s ≡ (ok id, s')
      → Creation now c id s s'
  unfolding create_connection
  create_connection-Creation now c id s s' h = encrypted_as-Creation now c id s s' _ refl h

  dated-tenant_id : (now : ℕ) (c : Connection) → (dated now c).tenant_id ≡ c.tenant_id
  dated-tenant_id now c = ground arith

  dated-name : (now : ℕ) (c : Connection) → (dated now c).name ≡ c.name
  dated-name now c = ground arith

  dated-adapter_type : (now : ℕ) (c : Connection) → (dated now c).adapter_type ≡ c.adapter_type
  dated-adapter_type now c = ground arith

  -- With an encrypter, what a creation that is answered has handed to the repository is the
  -- connection, dated, with one field in place of all its parameters: under the name `_enc` the
  -- base64 text of a nonce from the random source, followed by what AES-GCM under the key of the
  -- encrypter has sealed the JSON of the parameters to.
  pub create_connection-AtRest :
      (now : ℕ) (e : Encrypter) (c : Connection) (id : Bytes) (s s' : svc.repo.State)
      → svc.crypto ≡ some e
      → create_connection svc now c s ≡ (ok id, s')
      → (params : Fields) × Sealed svc.libraries.cipher e.key c.params params
        × (svc.repo.create_connection (with_params (dated now c) params) s ≡ (ok id, s'))
  create_connection-AtRest now e c id s s' h k =
      let g = create_connection-Creation now c id s s' k in
      let q =
        encrypt_json-Sealed svc.libraries.cipher e c.params g.params
          (subst (λ k. encrypt_json svc.libraries.cipher k c.params ≡ ok g.params) h g.encrypted) in
      (g.params, q, g.was_created)

  -- What `Got` says, from what the repository has stored and the decryption of its parameters.
  answer-Got :
      (now : ℕ) (c : Connection) (params : Fields) (id : Bytes) (s : svc.repo.State)
      → Stored id (with_params (dated now c) params) s
      → decrypt_json svc.libraries.cipher svc.crypto params ≡ ok c.params
      → Got id c s
  unfolding get_connection
  answer-Got now c params id s r d = record {
    connection = with_params r.stored c.params;
    answer_is = rw (← dated-tenant_id now c) (rw r.found (rw r.params_are (rw d refl)));
    id_is = r.id_is;
    tenant_is = r.tenant_is ∙ dated-tenant_id now c;
    name_is = r.name_is ∙ dated-name now c;
    adapter_is = r.adapter_is ∙ dated-adapter_type now c;
    params_are = refl;
  }

  -- If the cryptographic library reads back what it writes and the repository finds, under the ID
  -- and the tenant, what it has created, then a connection that has been created is answered to its
  -- tenant with the name, the adapter and all the parameters that it was created with.
  pub get_connection-create_connection :
      (now : ℕ) (c : Connection) (id : Bytes) (s s' : svc.repo.State)
      → ((k : ℕ) (x : Bytes) → svc.libraries.cipher.read_random k ≡ ok x → length x ≡ k)
      → ((gcm : svc.libraries.cipher.Gcm) (x p : Bytes)
          → length x ≡ svc.libraries.cipher.nonce_size gcm
          → svc.libraries.cipher.open_sealed gcm x (svc.libraries.cipher.seal gcm x p) ≡ ok p)
      → ((x : Bytes)
          → svc.libraries.cipher.decode_base64 (svc.libraries.cipher.encode_base64 x) ≡ ok x)
      → ((p : Bytes)
          → svc.libraries.cipher.marshal c.params ≡ ok p
          → svc.libraries.cipher.unmarshal p ≡ ok c.params)
      → ((d : Connection) (i : Bytes) (old new : svc.repo.State)
          → svc.repo.create_connection d old ≡ (ok i, new)
          → Stored i d new)
      → create_connection svc now c s ≡ (ok id, s')
      → Got id c s'
  get_connection-create_connection now c id s s' r g b j w h =
      let q = create_connection-Creation now c id s s' h in
      answer-Got now c q.params id s' (w _ id s s' q.was_created) (
        decrypt_json-encrypt_json svc.libraries.cipher svc.crypto c.params q.params r g b j
          q.encrypted)
