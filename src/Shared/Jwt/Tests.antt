-- ===== src/Shared/Jwt/Tests.antt =====
-- A library that writes its claims out with their lengths behind the secret, and the theorems at it.
use n.Base.{
  ℕ, ◌≡◌, refl, sym, ap, ◌∙◌, Bool, true, ◌&&◌, List, [], ◌∷◌, ◌++◌, Bytes, codes, eq, eq_refl,
  eq→≡, arith, length, take, drop, take-append, drop-append, ltb, leb, contains, if◌then◌else◌,
  Bool-cases, inl, inr,
}
use n.Job.Backend.{job_not_found, Result, ok, err}
use n.Shared.Jwt.{
  Claims, Manager, Options, Token, Library, user_claims, agent_claims, generate_user_token,
  generate_agent_token, verify,
}
use n.Shared.Jwt.Roundtrip.{Meets, verify-generate, View, Checks, Trusted, verify-Trusted}

put : Bytes → Bytes → Bytes
put s rest = length s ∷ (s ++ rest)

get : Bytes → Bytes × Bytes
get [] = ([], [])
get (k ∷ xs) = (take k xs, drop k xs)

get-put : (s rest : Bytes) → get (put s rest) ≡ (s, rest)
unfolding get put
get-put s rest =
    ap (λ x. (x, drop (length s) (s ++ rest))) (take-append s rest)
    ∙ ap (λ x. (s, x)) (drop-append s rest)

abbrev times : Bytes → ℕ × ℕ
times (e ∷ i ∷ []) = (e, i)
times x = (0, 0)

decode : Bytes → Claims
decode x =
    let (secret, x1) = get x in
    let (subject, x2) = get x1 in
    let (issuer, x3) = get x2 in
    let (audience, x4) = get x3 in
    let (id, x5) = get x4 in
    let (user_id, x6) = get x5 in
    let (email, x7) = get x6 in
    let (token_type, x8) = get x7 in
    record {
      subject = subject;
      issuer = issuer;
      audience = audience ∷ [];
      expires_at = (times x8).0;
      issued_at = (times x8).1;
      id = id;
      user_id = user_id;
      email = email;
      token_type = token_type;
    }

encode : Bytes → Claims → Bytes → Bytes
encode secret c audience = put secret (
    put c.subject (
      put c.issuer (
        put audience (
          put c.id
            (put c.user_id (put c.email (put c.token_type (c.expires_at ∷ c.issued_at ∷ []))))))))

decode-encode :
    (secret : Bytes) (c : Claims) (audience : Bytes)
    → decode (encode secret c audience) ≡ record c { audience = audience ∷ [] }
unfolding decode encode
decode-encode secret c audience = simp (get-put)

abbrev sign_for : Bytes → Claims → List Bytes → Result Bytes
sign_for secret c (a ∷ []) = ok (encode secret c a)
sign_for secret c audience = err job_not_found

abbrev head_of : List Bytes → Bytes
head_of [] = []
head_of (a ∷ rest) = a

abbrev meets : Options → ℕ → Claims → Bool
meets o now c =
    eq c.issuer o.issuer
    && (contains c.audience o.audience && (leb c.issued_at now && ltb now c.expires_at))

abbrev parse_known : Options → ℕ → Bytes → Claims → Result Token
parse_known o now x c =
    if eq (encode o.secret c (head_of c.audience)) x && meets o now c
    then ok (record { claims = c; valid = true })
    else err job_not_found

-- The library knows one method.
abbrev parse_claims : Options → ℕ → Bytes → Claims → Result Token
parse_claims o now x c =
    if contains o.methods (codes "HS256") then parse_known o now x c else err job_not_found

abbrev library : Library
library = record {
  sign = λ secret c. sign_for secret c c.audience;
  parse = λ o now x. parse_claims o now x (decode x);
}

sign_for-ok :
    (secret : Bytes) (c : Claims) (audience : List Bytes) {x : Bytes}
    → sign_for secret c audience ≡ ok x
    → (audience ≡ head_of audience ∷ []) × (encode secret c (head_of audience) ≡ x)
sign_for-ok secret c [] h = cc h
sign_for-ok secret c (a ∷ []) h = (refl, cc h)
sign_for-ok secret c (a ∷ b ∷ r) h = cc h

meets-true : (o : Options) (now : ℕ) (c : Claims) → Meets o now c → meets o now c ≡ true
meets-true o now c h =
    ground (arith, eq_refl o.issuer, h.issuer_is, h.audience_has, h.issued, h.unexpired)

true-meets : (o : Options) (now : ℕ) (c : Claims) → meets o now c ≡ true → Meets o now c
true-meets o now c h = ground (arith, eq→≡ c.issuer o.issuer)

parse_own :
    (o : Options) (now : ℕ) (c : Claims) (x : Bytes)
    → Meets o now c
    → encode o.secret c (head_of c.audience) ≡ x
    → parse_known o now x c ≡ ok (record { claims = c; valid = true })
parse_own o now c x m e = rw e (rw (eq_refl x) (rw (meets-true o now c m) refl))

reads_back :
    (o : Options) (now : ℕ) (c : Claims) (x : Bytes)
    → contains o.methods (codes "HS256") ≡ true
    → Meets o now c
    → library.sign o.secret c ≡ ok x
    → library.parse o now x ≡ ok (record { claims = c; valid = true })
reads_back o now c x k m h =
    let (a, e) = sign_for-ok o.secret c c.audience h in
    let d : decode x ≡ c =
      ap decode (sym e)
      ∙ decode-encode o.secret c (head_of c.audience)
      ∙ ap (λ y. record c { audience = y }) (sym a) in
    rw d (rw k (parse_own o now c x m e))

parse_known-ok :
    (o : Options) (now : ℕ) (x : Bytes) (c : Claims) (t : Token)
    → parse_known o now x c ≡ ok t
    → (t.claims ≡ c) × (encode o.secret c (head_of c.audience) ≡ x) × Meets o now c
parse_known-ok o now x c t h = elim (Bool-cases (eq (encode o.secret c (head_of c.audience)) x)) [
  | inr e ↦ let q = (rw e at h) in cc q
  | inl e ↦ elim (Bool-cases (meets o now c)) [
    | inr k ↦ let q = (rw k at (rw e at h)) in cc q
    | inl k ↦
        let q : ok (record { claims = c; valid = true }) ≡ ok t = (rw k at (rw e at h)) in
        let d : record { claims = c; valid = true } ≡ t = cc q in
        (ap (λ y. y.claims) (sym d), eq→≡ _ _ e, true-meets o now c k)
  ]
]

decode-audience : (x : Bytes) → (decode x).audience ≡ head_of (decode x).audience ∷ []
unfolding decode
decode-audience x = refl

-- A library that knows one method.
abbrev view : View
view = record {
  method_of = λ x. codes "HS256";
  is_signed = λ method secret x.
      eq method (codes "HS256") && eq (encode secret (decode x) (head_of (decode x).audience)) x;
  has_expiry = λ x. true;
}

signs_with :
    (o : Options) (x : Bytes)
    → encode o.secret (decode x) (head_of (decode x).audience) ≡ x
    → view.is_signed (codes "HS256") o.secret x ≡ true
unfolding eq
signs_with o x e = rw e (eq_refl x)

known_signed :
    (o : Options) (k : ℕ) (x : Bytes) (t : Token)
    → contains o.methods (codes "HS256") ≡ true
    → parse_known o k x (decode x) ≡ ok t
    → Checks view o k x t.claims
known_signed o k x t n h =
    let (c, e, m) = parse_known-ok o k x (decode x) t h in
    record {
      method_allowed = n;
      signed = signs_with o x e;
      issuer_is = rw c m.issuer_is;
      audience_has = rw c m.audience_has;
      expiry_given = inr refl;
      unexpired = inr (rw c m.unexpired);
      issued = inr (rw c m.issued);
    }

reads_signed :
    (o : Options) (k : ℕ) (x : Bytes) (t : Token)
    → library.parse o k x ≡ ok t
    → t.valid ≡ true
    → Checks view o k x t.claims
reads_signed o k x t h v = elim (Bool-cases (contains o.methods (codes "HS256"))) [
  | inr n ↦ let q = (rw n at h) in cc q
  | inl n ↦ known_signed o k x t n (rw n at h)
]

abbrev manager : Manager
manager = record { secret = codes "s"; issuer = codes "n0"; expiry = 60 }

abbrev user : Claims
user = user_claims manager 100 (codes "id") (codes "u1") (codes "a@b")

abbrev agent : Claims
agent = agent_claims manager 100 (codes "id") (codes "a1") (codes "u1")

abbrev user_token : Bytes
user_token = encode (codes "s") user (codes "n0-platform")

abbrev agent_token : Bytes
agent_token = encode (codes "s") agent (codes "n0-platform")

user_signed :
    generate_user_token library manager 100 (codes "id") (codes "u1") (codes "a@b") ≡ ok user_token
unfolding generate_user_token
user_signed = refl

agent_signed :
    generate_agent_token library manager 100 (codes "id") (codes "a1") (codes "u1") ≡ ok agent_token
unfolding generate_agent_token
agent_signed = refl

verify-generate_example :
    (verify library manager 130 user_token ≡ ok user)
    × (verify library manager 130 agent_token ≡ ok agent)
verify-generate_example =
    verify-generate library manager 100 130 (codes "id") (codes "u1") (codes "a@b") (codes "a1")
      user_token agent_token reads_back refl (omega arith) (omega arith) user_signed agent_signed

user_verified : verify library manager 130 user_token ≡ ok user
unfolding verify encode decode get put contains
user_verified = refl

verify-Trusted_example : Trusted library view manager 130 user_token user
verify-Trusted_example =
    verify-Trusted library view manager 130 user_token user reads_signed user_verified
