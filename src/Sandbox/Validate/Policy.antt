-- ===== src/Sandbox/Validate/Policy.antt =====
-- sandbox.go, `ValidatePolicy`: what each step has returned for an accepted query, and the tables
-- and the tenant predicate of its result.
use n.Base.{
  ◌≡◌, ◌≢◌, refl, List, [], ◌∷◌, map, Option, Bytes, Unicode, Signed, All, is_empty, Bool-cases,
  inl, inr, trim_space, ◌∙◌, ap, sym,
}
use n.Sandbox.Token.{Token, Checked, ok, err, ◌>>=◌}
use n.Sandbox.Token
use n.Sandbox.Lexer.{lex}
use n.Sandbox.Tables.{TableRef, extract_tables, enforce_allowlist}
use n.Sandbox.Tables.Allowlist.{Listed, enforce_allowlist_iff, extract_tables-ne}
use n.Sandbox.Tables.Reads.{Reads, extract_tables-Reads}
use n.Sandbox.Rewrite.{parse_limit}
use n.Sandbox.Validate.{
  Accepted, strip, check_first, check_tokens, apply_tenant, apply_limit, validate_text,
  validate_policy,
}

-- A step that is followed by others has succeeded if the whole has.
module _ {ℓ κ} {A : Type ℓ} {B : Type κ} where
  pub bind-eq-ok :
      (step : Checked A) (later : A → Checked B) {out : B}
      → step >>= later ≡ ok out
      → (mid : A) × (step ≡ ok mid) × (later mid ≡ ok out)
  bind-eq-ok (err reason) later h = cc
  bind-eq-ok (ok mid) later h = (mid, refl, h)

pub ok-injective {ℓ} : {A : Type ℓ} {x y : A} → ok x ≡ ok y → x ≡ y
ok-injective h = cc

map-ne-nil : (refs : List TableRef) → refs ≢ [] → map (λ r. r.table) refs ≢ []
map-ne-nil [] h = absurd (h refl)
map-ne-nil (r ∷ rs) h = λ e. cc

module _ ⦃u : Unicode⦄ where
  -- The results of the steps that accept a query.
  pub record Validated (sql : Bytes) (policy : Token.Policy) (a : Accepted) : Type 0 where
    pub tokens : List Token
    pub refs : List TableRef
    pub rewritten : Bytes
    pub limit : Option Signed
    pub lexed : lex (strip sql) ≡ ok tokens
    pub first : check_first tokens ≡ ok tt
    pub checked : check_tokens 0 tokens ≡ ok tt
    pub extracted : extract_tables tokens ≡ ok refs
    pub permitted : enforce_allowlist (map (λ r. r.table) refs) policy.allowed_tables ≡ ok tt
    pub scoped : apply_tenant policy (strip sql) tokens refs ≡ ok rewritten
    pub limited : parse_limit tokens ≡ ok limit
    pub capped : apply_limit rewritten limit ≡ ok a.sanitized
    pub tables_of : a.tables ≡ map (λ r. r.table) refs

  validate_text-Validated :
      (sql : Bytes) (policy : Token.Policy) (a : Accepted)
      → validate_text (strip sql) policy ≡ ok a
      → Validated sql policy a
  unfolding validate_text
  validate_text-Validated sql policy a h =
      let (tokens, lexed, h1) = bind-eq-ok (lex (strip sql)) _ h in
      let (_, first, h2) = bind-eq-ok (check_first tokens) _ h1 in
      let (_, checked, h3) = bind-eq-ok (check_tokens 0 tokens) _ h2 in
      let (refs, extracted, h4) = bind-eq-ok (extract_tables tokens) _ h3 in
      let (_, permitted, h5) =
        bind-eq-ok (enforce_allowlist (map (λ r. r.table) refs) policy.allowed_tables) _ h4 in
      let (rewritten, scoped, h6) = bind-eq-ok (apply_tenant policy (strip sql) tokens refs) _ h5 in
      let (limit, limited, h7) = bind-eq-ok (parse_limit tokens) _ h6 in
      let (text, capped, h8) = bind-eq-ok (apply_limit rewritten limit) _ h7 in
      let e = ok-injective h8 in
      record {
        tokens = tokens;
        refs = refs;
        rewritten = rewritten;
        limit = limit;
        lexed = lexed;
        first = first;
        checked = checked;
        extracted = extracted;
        permitted = permitted;
        scoped = scoped;
        limited = limited;
        capped = capped ∙ ap (λ (x : Accepted). ok x.sanitized) e;
        tables_of = ap (λ (x : Accepted). x.tables) (sym e);
      }

  pub validate_policy-Validated :
      (sql : Bytes) (policy : Token.Policy) (a : Accepted)
      → validate_policy sql policy ≡ ok a
      → Validated sql policy a
  unfolding validate_policy
  validate_policy-Validated sql policy a h = elim (Bool-cases (is_empty (trim_space sql))) [
    | inl e ↦ let h' : err _ ≡ ok a = (rw e at h) in cc h'
    | inr e ↦ validate_text-Validated sql policy a (rw e at h)
  ]

  -- The tables of an accepted query are those that its tokens name behind FROM and JOIN.
  pub record TablesOf (sql : Bytes) (tables : List Bytes) : Type 0 where
    pub tokens : List Token
    pub refs : List TableRef
    pub lexed : lex (strip sql) ≡ ok tokens
    pub reads : Reads tokens refs
    pub tables_are : tables ≡ map (λ r. r.table) refs

  Validated-TablesOf :
      (sql : Bytes) (policy : Token.Policy) (a : Accepted)
      → Validated sql policy a
      → TablesOf sql a.tables
  Validated-TablesOf sql policy a v = record {
    tokens = v.tokens;
    refs = v.refs;
    lexed = v.lexed;
    reads = extract_tables-Reads v.tokens v.refs v.extracted;
    tables_are = v.tables_of;
  }

  -- The tables of an accepted query are the names behind each FROM and JOIN that is not itself in a
  -- table reference; there is at least one, the policy has an allowlist, and for each of them an
  -- entry of it, with the spaces around it cut off and lowered, is the name or its part behind the
  -- last dot.
  pub validate_policy-tables :
      (sql : Bytes) (policy : Token.Policy) (a : Accepted)
      → validate_policy sql policy ≡ ok a
      → TablesOf sql a.tables
        × (a.tables ≢ [])
        × (policy.allowed_tables ≢ [])
        × All (Listed policy.allowed_tables) a.tables
  validate_policy-tables sql policy a h =
      let v = validate_policy-Validated sql policy a h in
      let p = (enforce_allowlist_iff _ policy.allowed_tables).0 v.permitted in
      (
        Validated-TablesOf sql policy a v,
        rw v.tables_of (map-ne-nil v.refs (extract_tables-ne v.tokens v.extracted)),
        p.0,
        rw v.tables_of p.1,
      )
