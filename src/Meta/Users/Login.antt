-- ===== src/Meta/Users/Login.antt =====
-- internal/app/app.go: `RegisterUser` and the `LoginUser` that follows it.
use n.Base.{
  ℕ, ◌≡◌, ◌∙◌, refl, ap, [], ◌∷◌, none, some, Bytes, codes, ◌++◌, length, length-append, ◌+◌, ◌≤◌,
  arith,
}
use n.Job.Backend.{Result, ok, err}
use n.Meta.Types.{User, MetaService}
use n.Meta.App.{hash_password_input}
use n.Meta.Users.{normalize_email, generate_password_salt, salt_of, register_user, login_user}
use n.Meta.Users.Accounts.{register_user-Registration}

length-hash_password_input :
    (password salt : Bytes)
    → length salt ≡ 22
    → length (hash_password_input password salt) ≡ length password + 23
unfolding hash_password_input
length-hash_password_input password [] h = ground arith
length-hash_password_input password (x ∷ salt) h =
    let e = length-append password (codes ":" ++ (x ∷ salt)) in omega (arith, e, h)

module _ (svc : MetaService) where
  -- A user that the repository finds by the address.
  pub record Account (id email hash salt role : Bytes) (s : svc.repo.State) : Type 0 where
    pub user : User
    pub found : svc.repo.get_user_by_email email s ≡ ok (some user)
    pub id_is : user.id ≡ id
    pub hash_is : user.password_hash ≡ hash
    pub salt_is : user.password_salt ≡ salt
    pub role_is : user.role ≡ role

  -- A login that answers with the user of that ID and role.
  pub record LoggedIn (email password id role : Bytes) (s : svc.repo.State) : Type 0 where
    pub user : User
    pub answered : login_user svc email password s ≡ ok user
    pub id_is : user.id ≡ id
    pub role_is : user.role ≡ role

  salt_of-length :
      (salt : Bytes) (found : Result Bytes)
      → ((x : Bytes) → found ≡ ok x → length x ≡ 16)
      → ((x : Bytes) → length x ≡ 16 → length (svc.libraries.encode_raw_url x) ≡ 22)
      → salt_of svc found ≡ ok salt
      → length salt ≡ 22
  salt_of-length salt (err e) r c h = cc h
  salt_of-length salt (ok x) r c h = let q = c x (r x refl) in cc (q, h)

  generate_password_salt-length :
      (salt : Bytes)
      → ((k : ℕ) (x : Bytes) → svc.libraries.read_random k ≡ ok x → length x ≡ k)
      → ((x : Bytes) → length x ≡ 16 → length (svc.libraries.encode_raw_url x) ≡ 22)
      → generate_password_salt svc ≡ ok salt
      → length salt ≡ 22
  unfolding generate_password_salt
  generate_password_salt-length salt r c h = salt_of-length salt _ (r 16) c h

  -- If bcrypt refuses inputs over 72 bytes, the random source gives as many bytes as are asked for
  -- and 16 bytes are 22 in unpadded base64, then a user is registered only with a password of 12 to
  -- 49 bytes.
  pub register_user-password :
      (email password role id : Bytes) (s last : svc.repo.State)
      → ((x hash : Bytes) → svc.libraries.generate_hash x ≡ ok hash → length x ≤ 72)
      → ((k : ℕ) (x : Bytes) → svc.libraries.read_random k ≡ ok x → length x ≡ k)
      → ((x : Bytes) → length x ≡ 16 → length (svc.libraries.encode_raw_url x) ≡ 22)
      → register_user svc email password role s ≡ (ok id, last)
      → (12 ≤ length password) × (length password ≤ 49)
  register_user-password email password role id s last b r c h =
      let g = register_user-Registration svc email password role id s last h in
      let l = b _ g.hash g.hashed in
      let n =
        length-hash_password_input password g.salt
          (generate_password_salt-length g.salt r c g.salted) in
      (ground (arith, g.long), omega (arith, l, n))

  found_user-LoggedIn :
      (email password hash salt id role value : Bytes) (s : svc.repo.State)
      → Account id value hash salt role s
      → svc.libraries.compare_hash hash (hash_password_input password salt) ≡ none
      → normalize_email svc email ≡ ok value
      → LoggedIn email password id role s
  unfolding login_user
  found_user-LoggedIn email password hash salt id role value s a c n = record {
    user = a.user;
    answered = rw n (rw a.found (rw a.hash_is (rw a.salt_is (rw c refl))));
    id_is = a.id_is;
    role_is = a.role_is;
  }

  -- If the repository finds a user it has created, with its hash and role, and keeps it when a
  -- workspace is created, and bcrypt accepts an input for its own hash, then the registered address,
  -- in any spelling that is normalized like it, and the password log in the new user, whose role is
  -- "user" whatever role was asked for.
  pub login_user-register_user :
      (email spelled password role id : Bytes) (s last : svc.repo.State)
      → ((e h t r i : Bytes) (old new : svc.repo.State)
          → svc.repo.create_user e h t r old ≡ (ok i, new)
          → Account i e h t r new)
      → ((a b name e : Bytes) (old : svc.repo.State)
          → svc.repo.get_user_by_email e (svc.repo.create_workspace a b name old).1
            ≡ svc.repo.get_user_by_email e old)
      → ((x hash : Bytes)
          → svc.libraries.generate_hash x ≡ ok hash
          → svc.libraries.compare_hash hash x ≡ none)
      → normalize_email svc spelled ≡ normalize_email svc email
      → register_user svc email password role s ≡ (ok id, last)
      → LoggedIn spelled password id (codes "user") last
  login_user-register_user email spelled password role id s last c w b n h =
      let g = register_user-Registration svc email password role id s last h in
      let a = c _ _ _ _ _ _ _ g.is_created in
      found_user-LoggedIn spelled password g.hash g.salt id (codes "user") g.value last
        (record {
          user = a.user;
          found =
              ap (svc.repo.get_user_by_email g.value) g.is_last
              ∙ (w id id (codes "Default Workspace") g.value g.created ∙ a.found);
          id_is = a.id_is;
          hash_is = a.hash_is;
          salt_is = a.salt_is;
          role_is = a.role_is;
        })
        (b _ g.hash g.hashed) (n ∙ g.normalized)
