-- ===== src/Meta/Users.antt =====
-- internal/app/app.go: the accounts and agents of `MetaService`.
mod Accounts
pub mod Login
use n.Base.{
  ℕ, ◌≡◌, refl, Bool, true, false, not, ◌||◌, List, [], ◌∷◌, Option, none, some, Bytes, codes, ◌++◌,
  length, ltb, eq, trim_space, if◌then◌else◌, arith,
}
use n.Job.Backend.{Error, message, wrap, Result, ok, err}
use n.Meta.Types.{User, Agent, MetaService}
use n.Meta.App.{hash_password_input, named_as}

abbrev pub invalid_credentials : Error
invalid_credentials = message (codes "invalid credentials")

module _ (svc : MetaService) where
  abbrev address_checked : Bytes → Result Bytes → Result Bytes
  address_checked value (err e) = err (message (codes "invalid email address"))
  address_checked value (ok address) =
      if not (eq address value) then err (message (codes "invalid email address")) else ok value

  -- `normalizeEmail`.
  unfoldable pub normalize_email : Bytes → Result Bytes
  normalize_email value =
      let lower = svc.libraries.unicode.to_lower (trim_space value) in
      address_checked lower (svc.libraries.parse_address lower)

  abbrev salt_of : Result Bytes → Result Bytes
  salt_of (err e) = err e
  salt_of (ok buf) = ok (svc.libraries.encode_raw_url buf)

  -- `generatePasswordSalt`.
  unfoldable pub generate_password_salt : Result Bytes
  generate_password_salt = salt_of (svc.libraries.read_random 16)

  abbrev pub Registered : Type 0
  Registered = Result Bytes × svc.repo.State

  abbrev with_workspace : Bytes → Result Bytes × svc.repo.State → Registered
  with_workspace id (err e, s) = (err (wrap (codes "create default workspace") e), s)
  with_workspace id (ok w, s) = (ok id, s)

  -- Behind `CreateUser`.
  abbrev with_user : Result Bytes × svc.repo.State → Registered
  with_user (err e, s) = (err e, s)
  with_user (ok id, s) =
      with_workspace id (svc.repo.create_workspace id id (codes "Default Workspace") s)

  -- Behind `bcrypt.GenerateFromPassword`.
  abbrev with_hash : Bytes → Bytes → svc.repo.State → Result Bytes → Registered
  with_hash email salt s (err e) = (err (wrap (codes "hash password") e), s)
  with_hash email salt s (ok hash) =
      with_user (svc.repo.create_user email hash salt (codes "user") s)

  abbrev with_salt : Bytes → Bytes → svc.repo.State → Result Bytes → Registered
  with_salt email password s (err e) = (err (wrap (codes "generate password salt") e), s)
  with_salt email password s (ok salt) =
      with_hash email salt s (svc.libraries.generate_hash (hash_password_input password salt))

  -- Behind `normalizeEmail`.
  abbrev with_email : Bytes → svc.repo.State → Result Bytes → Registered
  with_email password s (err e) = (err e, s)
  with_email password s (ok email) =
      if ltb (length password) 12 || ltb 64 (length password)
      then (err (message (codes "password must be between 12 and 64 characters")), s)
      else with_salt email password s generate_password_salt

  -- `RegisterUser`, whose role is not looked at.
  unfoldable pub register_user : Bytes → Bytes → Bytes → svc.repo.State → Registered
  unfolding normalize_email generate_password_salt hash_password_input
  register_user email password role s = with_email password s (normalize_email email)

  -- Behind `bcrypt.CompareHashAndPassword`.
  abbrev compared : User → Option Error → Result User
  compared u (some e) = err invalid_credentials
  compared u none = ok u

  abbrev found_user : Bytes → Result (Option User) → Result User
  found_user password (err e) = err (wrap (codes "find user") e)
  found_user password (ok none) = err invalid_credentials
  found_user password (ok (some u)) =
      compared u
        (svc.libraries.compare_hash u.password_hash (hash_password_input password u.password_salt))

  abbrev login_email : Bytes → svc.repo.State → Result Bytes → Result User
  login_email password s (err e) = err invalid_credentials
  login_email password s (ok email) = found_user password (svc.repo.get_user_by_email email s)

  -- `LoginUser`.
  unfoldable pub login_user : Bytes → Bytes → svc.repo.State → Result User
  unfolding normalize_email hash_password_input
  login_user email password s = login_email password s (normalize_email email)

  abbrev created_agent : Result Bytes × svc.repo.State → Result (Option Agent) × svc.repo.State
  created_agent (err e, s) = (err (wrap (codes "create agent") e), s)
  created_agent (ok id, s) = (svc.repo.get_agent id s, s)

  -- `CreateAgent`.
  unfoldable pub create_agent :
      Bytes → Bytes → svc.repo.State → Result (Option Agent) × svc.repo.State
  create_agent user_id name s = created_agent (svc.repo.create_agent user_id name s)

  -- `ListAgents`.
  unfoldable pub list_agents : Bytes → svc.repo.State → Result (List Agent)
  list_agents user_id s = svc.repo.list_agents_by_user user_id s

  -- `GetUserByID`.
  unfoldable pub get_user_by_id : Bytes → svc.repo.State → Result (Option User)
  get_user_by_id id s = svc.repo.get_user_by_id id s

  -- `UpdateAgentTokenJTI`.
  unfoldable pub update_agent_token_jti :
      Bytes → Bytes → svc.repo.State → Option Error × svc.repo.State
  update_agent_token_jti agent_id jti s = svc.repo.update_agent_token_jti agent_id jti s
