-- ===== src/Meta/Users/Accounts.antt =====
-- internal/app/app.go: what a registration leaves for the logins that follow it.
use n.Base.{◌≡◌, refl, Bool, true, false, Bytes, codes, length, ltb}
use n.Job.Backend.{Result, ok, err}
use n.Meta.Types.{MetaService}
use n.Meta.App.{hash_password_input}
use n.Meta.Users.{
  normalize_email, generate_password_salt, with_workspace, with_user, with_hash, with_salt,
  with_email, register_user,
}

module _ (svc : MetaService) where
  -- What an answered registration has gone through.
  pub record Registration (email password id : Bytes) (s last : svc.repo.State) : Type 0 where
    pub value : Bytes
    pub salt : Bytes
    pub hash : Bytes
    pub created : svc.repo.State
    pub normalized : normalize_email svc email ≡ ok value
    pub long : ltb (length password) 12 ≡ false
    pub short : ltb 64 (length password) ≡ false
    pub salted : generate_password_salt svc ≡ ok salt
    pub hashed : svc.libraries.generate_hash (hash_password_input password salt) ≡ ok hash
    pub is_created : svc.repo.create_user value hash salt (codes "user") s ≡ (ok id, created)
    pub is_last : last ≡ (svc.repo.create_workspace id id (codes "Default Workspace") created).1

  with_workspace-id :
      (id i : Bytes) (last : svc.repo.State) (found : Result Bytes × svc.repo.State)
      → with_workspace svc id found ≡ (ok i, last)
      → i ≡ id
  with_workspace-id id i last (err e, s) h = cc h
  with_workspace-id id i last (ok w, s) h = cc h

  with_workspace-last :
      (id i : Bytes) (last : svc.repo.State) (found : Result Bytes × svc.repo.State)
      → with_workspace svc id found ≡ (ok i, last)
      → last ≡ found.1
  with_workspace-last id i last (err e, s) h = cc h
  with_workspace-last id i last (ok w, s) h = cc h

  with_user-Registration :
      (email password value salt hash id : Bytes) (s last : svc.repo.State)
      → (found : Result Bytes × svc.repo.State) → normalize_email svc email ≡ ok value
      → ltb (length password) 12 ≡ false
      → ltb 64 (length password) ≡ false
      → generate_password_salt svc ≡ ok salt
      → svc.libraries.generate_hash (hash_password_input password salt) ≡ ok hash
      → svc.repo.create_user value hash salt (codes "user") s ≡ found
      → with_user svc found ≡ (ok id, last)
      → Registration email password id s last
  with_user-Registration email password value salt hash id s last (err e, t) n l k g b c h = cc h
  with_user-Registration email password value salt hash id s last (ok i, t) n l k g b c h =
      let e = with_workspace-id i id last _ h in
      record {
        value = value;
        salt = salt;
        hash = hash;
        created = t;
        normalized = n;
        long = l;
        short = k;
        salted = g;
        hashed = b;
        is_created = rw e c;
        is_last = rw e (with_workspace-last i id last _ h);
      }

  with_hash-Registration :
      (email password value salt id : Bytes) (s last : svc.repo.State) (found : Result Bytes)
      → normalize_email svc email ≡ ok value
      → ltb (length password) 12 ≡ false
      → ltb 64 (length password) ≡ false
      → generate_password_salt svc ≡ ok salt
      → svc.libraries.generate_hash (hash_password_input password salt) ≡ found
      → with_hash svc value salt s found ≡ (ok id, last)
      → Registration email password id s last
  with_hash-Registration email password value salt id s last (err e) n l k g b h = cc h
  with_hash-Registration email password value salt id s last (ok hash) n l k g b h =
      with_user-Registration email password value salt hash id s last _ n l k g b refl h

  with_salt-Registration :
      (email password value id : Bytes) (s last : svc.repo.State) (found : Result Bytes)
      → normalize_email svc email ≡ ok value
      → ltb (length password) 12 ≡ false
      → ltb 64 (length password) ≡ false
      → generate_password_salt svc ≡ found
      → with_salt svc value password s found ≡ (ok id, last)
      → Registration email password id s last
  with_salt-Registration email password value id s last (err e) n l k g h = cc h
  with_salt-Registration email password value id s last (ok salt) n l k g h =
      with_hash-Registration email password value salt id s last _ n l k g refl h

  with_length-Registration :
      (email password value id : Bytes) (s last : svc.repo.State) (low high : Bool)
      → normalize_email svc email ≡ ok value
      → ltb (length password) 12 ≡ low
      → ltb 64 (length password) ≡ high
      → with_email svc password s (ok value) ≡ (ok id, last)
      → Registration email password id s last
  with_length-Registration email password value id s last true high n l k h =
      let q = (rw l at h) in cc q
  with_length-Registration email password value id s last false true n l k h =
      let q = (rw (l, k) at h) in cc q
  with_length-Registration email password value id s last false false n l k h =
      with_salt-Registration email password value id s last _ n l k refl (rw (l, k) at h)

  with_email-Registration :
      (email password id : Bytes) (s last : svc.repo.State) (found : Result Bytes)
      → normalize_email svc email ≡ found
      → with_email svc password s found ≡ (ok id, last)
      → Registration email password id s last
  with_email-Registration email password id s last (err e) n h = cc h
  with_email-Registration email password id s last (ok value) n h =
      with_length-Registration email password value id s last _ _ n refl refl h

  pub register_user-Registration :
      (email password role id : Bytes) (s last : svc.repo.State)
      → register_user svc email password role s ≡ (ok id, last)
      → Registration email password id s last
  unfolding register_user
  register_user-Registration email password role id s last h =
      with_email-Registration email password id s last _ refl h
