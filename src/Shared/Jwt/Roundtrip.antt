-- ===== src/Shared/Jwt/Roundtrip.antt =====
-- jwt.go: the tokens that the manager makes are the ones that it takes.
use mathlib.Core.Path.{subst}
use n.Base.{
  Bool, [], ◌∷◌, sym, arith, ℕ, ◌+◌, ◌≤◌, ◌<◌, ◌≡◌, ◌⊎◌, inl, inr, refl, true, false, Bytes, codes,
  eq, eq→≡, Bool-cases, is_empty, contains,
}
use n.Job.Backend.{Result, ok, err}
use n.Shared.Jwt.{
  Claims, Manager, Options, Token, Library, platform, options_of, user_claims, generate_user_token,
  agent_claims, generate_agent_token, lacks_claims, checked, verify,
}

-- Claims that meet the options at a time: the issuer and the audience are those asked for, and the
-- token has been issued and has not expired.
pub record Meets (o : Options) (now : ℕ) (c : Claims) : Type 0 where
  pub issuer_is : c.issuer ≡ o.issuer
  pub audience_has : contains c.audience o.audience ≡ true
  pub issued : c.issued_at ≤ now
  pub unexpired : now < c.expires_at

-- What stands in a token for the library: the method that its header names, whether its signature
-- holds for a method and a secret, and whether its claims give an expiry.
pub record View : Type 0 where
  pub method_of : Bytes → Bytes
  pub is_signed : Bytes → Bytes → Bytes → Bool
  pub has_expiry : Bytes → Bool

-- What the library has checked of a valid token, as its options ask: an expiry that is given is
-- always checked, its presence and the time of issue only where the options say so.
pub record Checks (view : View) (o : Options) (now : ℕ) (token : Bytes) (c : Claims) : Type 0 where
  pub method_allowed : contains o.methods (view.method_of token) ≡ true
  pub signed : view.is_signed (view.method_of token) o.secret token ≡ true
  pub issuer_is : c.issuer ≡ o.issuer
  pub audience_has : contains c.audience o.audience ≡ true
  pub expiry_given : o.needs_expiry ≡ false ⊎ view.has_expiry token ≡ true
  pub unexpired : view.has_expiry token ≡ false ⊎ now < c.expires_at
  pub issued : o.checks_issued_at ≡ false ⊎ c.issued_at ≤ now

contains-one : (x y : Bytes) → contains (x ∷ []) y ≡ true → x ≡ y
unfolding contains
contains-one x y h = ground (arith, eq→≡ x y)

module _ (lib : Library) where
  checked-valid :
      (c : Claims)
      → lacks_claims c ≡ false
      → checked (ok (record { claims = c; valid = true })) ≡ ok c
  checked-valid c h = rw h

  -- Claims that name a user and a type, for the platform and by the manager's issuer.
  verify-signed :
      (m : Manager) (at : ℕ) (c : Claims) (token : Bytes)
      → lib.parse (options_of m) at token ≡ ok (record { claims = c; valid = true })
      → lacks_claims c ≡ false
      → verify lib m at token ≡ ok c
  unfolding verify
  verify-signed m at c token p h = rw p (checked-valid c h)

  -- If the library reads back, under the options asked for, what it has signed, then until it
  -- expires the token made for a user, or for an agent of a user, is verified and names them.
  pub verify-generate :
      (m : Manager) (now at : ℕ) (token_id user_id email agent_id user_token agent_token : Bytes)
      → ((o : Options) (t : ℕ) (c : Claims) (token : Bytes)
          → contains o.methods (codes "HS256") ≡ true
          → Meets o t c
          → lib.sign o.secret c ≡ ok token
          → lib.parse o t token ≡ ok (record { claims = c; valid = true }))
      → is_empty user_id ≡ false
      → now ≤ at
      → at < now + m.expiry
      → generate_user_token lib m now token_id user_id email ≡ ok user_token
      → generate_agent_token lib m now token_id agent_id user_id ≡ ok agent_token
      → (verify lib m at user_token ≡ ok (user_claims m now token_id user_id email))
        × (verify lib m at agent_token ≡ ok (agent_claims m now token_id agent_id user_id))
  unfolding generate_user_token generate_agent_token contains eq
  verify-generate m now at token_id user_id email agent_id user_token agent_token reads n i x u a =
      let user = user_claims m now token_id user_id email in
      let agent = agent_claims m now token_id agent_id user_id in
      let meets =
        λ (c : Claims) (is : c.issuer ≡ m.issuer) (au : contains c.audience platform ≡ true)
            (s : c.issued_at ≤ at) (e : at < c.expires_at).
          let r : Meets (options_of m) at c = record {
            issuer_is = is;
            audience_has = au;
            issued = s;
            unexpired = e;
          } in
          r in
      (
        verify-signed m at user user_token
            (reads (options_of m) at user user_token refl (meets user refl refl i x) u) (rw n refl),
        verify-signed m at agent agent_token
            (reads (options_of m) at agent agent_token refl (meets agent refl refl i x) a)
            (rw n refl),
      )

  -- A verified token: its header names HS256, its signature holds under the manager's secret, the
  -- manager's issuer has made it for the platform, it has been issued and gives an expiry that is
  -- to come, and it names a user and one of the two types.
  pub record Trusted (view : View) (m : Manager) (now : ℕ) (token : Bytes) (c : Claims)
      : Type 0 where
    pub method_is : view.method_of token ≡ codes "HS256"
    pub signed : view.is_signed (codes "HS256") m.secret token ≡ true
    pub issuer_is : c.issuer ≡ m.issuer
    pub audience_has : contains c.audience (codes "n0-platform") ≡ true
    pub expires : view.has_expiry token ≡ true
    pub unexpired : now < c.expires_at
    pub issued : c.issued_at ≤ now
    pub user_named : is_empty c.user_id ≡ false
    pub type_is : (c.token_type ≡ codes "user") ⊎ (c.token_type ≡ codes "agent")

  lacks_claims-false :
      (c : Claims)
      → lacks_claims c ≡ false
      → (is_empty c.user_id ≡ false)
        × ((c.token_type ≡ codes "user") ⊎ (c.token_type ≡ codes "agent"))
  lacks_claims-false c h = elim (Bool-cases (is_empty c.user_id)) [
    | inl e ↦ let q : true ≡ false = (rw e at h) in cc q
    | inr e ↦ (
      e,
      elim (Bool-cases (eq c.token_type (codes "user"))) [
        | inl u ↦ inl (eq→≡ _ _ u)
        | inr u ↦ elim (Bool-cases (eq c.token_type (codes "agent"))) [
          | inl a ↦ inr (eq→≡ _ _ a)
          | inr a ↦ let q : true ≡ false = (rw a at (rw u at (rw e at h))) in cc q
        ]
      ],
    )
  ]

  checked-ok :
      (found : Result Token) (c : Claims)
      → checked found ≡ ok c
      → (t : Token) × (found ≡ ok t) × (t.valid ≡ true) × (t.claims ≡ c) × (lacks_claims c ≡ false)
  checked-ok (err e) c h = cc h
  checked-ok (ok t) c h = elim (Bool-cases t.valid) [
    | inr v ↦ let q = (rw v at h) in cc q
    | inl v ↦ elim (Bool-cases (lacks_claims t.claims)) [
      | inl l ↦ let q = (rw l at (rw v at h)) in cc q
      | inr l ↦
          let q : ok t.claims ≡ ok c = (rw l at (rw v at h)) in
          let e : t.claims ≡ c = cc q in (t, refl, v, e, rw (← e) l)
    ]
  ]

  -- Whatever the library, a verified token names a user.
  pub verify-user_named :
      (m : Manager) (now : ℕ) (token : Bytes) (c : Claims)
      → verify lib m now token ≡ ok c
      → is_empty c.user_id ≡ false
  unfolding verify
  verify-user_named m now token c h =
      let (t, found, v, e, l) = checked-ok (lib.parse (options_of m) now token) c h in
      (lacks_claims-false c l).0

  -- If the library checks of a valid token what its options ask for, then a token that is verified
  -- names the method HS256, has a signature under the manager's secret, is the manager's for the
  -- platform, has been issued, gives an expiry and has not expired, and names a user and one of the
  -- two types.
  pub verify-Trusted :
      (view : View) (m : Manager) (now : ℕ) (token : Bytes) (c : Claims)
      → ((o : Options) (k : ℕ) (x : Bytes) (t : Token)
          → lib.parse o k x ≡ ok t
          → t.valid ≡ true
          → Checks view o k x t.claims)
      → verify lib m now token ≡ ok c
      → Trusted view m now token c
  unfolding verify
  verify-Trusted view m now token c reads h =
      let (t, found, v, e, l) = checked-ok (lib.parse (options_of m) now token) c h in
      let k : Checks view (options_of m) now token c =
        subst (λ x. Checks view (options_of m) now token x) e
          (reads (options_of m) now token t found v) in
      let n = contains-one (codes "HS256") (view.method_of token) k.method_allowed in
      let (u, y) = lacks_claims-false c l in
      let expires : view.has_expiry token ≡ true = elim k.expiry_given [
        | inl f ↦ let q : true ≡ false = f in cc q
        | inr g ↦ g
      ] in
      record {
        method_is = sym n;
        signed = rw n k.signed;
        issuer_is = k.issuer_is;
        audience_has = k.audience_has;
        expires = expires;
        unexpired = elim k.unexpired [ inl f ↦ cc (f, expires) | inr g ↦ g ];
        issued = elim k.issued [ inl f ↦ (let q : true ≡ false = f in cc q) | inr g ↦ g ];
        user_named = u;
        type_is = y;
      }
