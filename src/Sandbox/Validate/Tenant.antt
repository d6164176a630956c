-- ===== src/Sandbox/Validate/Tenant.antt =====
-- sandbox.go, `ValidatePolicy`: the tenant predicate of an accepted query.
use mathlib.Core.Path.{subst}
use mathlib.Core.List.{append-nil, append_assoc}
use n.Base.{
  ℕ, length, after_last, ◌≡◌, ◌≢◌, refl, sym, ◌∙◌, true, false, List, [], ◌∷◌, ◌++◌, map, Option,
  some, none, Bytes, Unicode, Signed, is_empty, Bool-cases, Option-cases, inl, inr, trim_space,
  codes, take, drop, slice, ap,
}
use n.Sandbox.Token.{Token, Checked, ok, err}
use n.Sandbox.Token
use n.Sandbox.Tables.{TableRef, identifier}
use n.Sandbox.Lexer.{lex}
use n.Sandbox.Tables.Reads.{Reads, extract_tables-Reads}
use n.Sandbox.Rewrite.Clauses.{
  outside, clause_start, up_to_clause, last_where, described, find_cut-described,
}
use n.Sandbox.Quote.{quote_identifier, quote_literal}
use n.Sandbox.Rewrite.{Cut, append_suffix, inject_at, inject_predicate}
use n.Sandbox.Validate.{
  Accepted, strip, qualifier, predicate, one_table, apply_tenant, apply_limit, in_limit,
  validate_policy,
}
use n.Sandbox.Validate.Policy.{validate_policy-Validated, ok-injective}

-- The start of the first clause outside parentheses that may follow the condition of a query.
abbrev clause_at : Bytes → List Token → ℕ
clause_at sql tokens = clause_start (length sql) (outside 0 0 tokens)

-- The offsets of the last WHERE outside parentheses before that clause.
abbrev condition_at : List Token → Option (ℕ × ℕ)
condition_at tokens = last_where none (up_to_clause (outside 0 0 tokens))

-- The clauses from that one on, as they are written behind the condition.
abbrev clauses_of : Bytes → Bytes
clauses_of [] = []
clauses_of (c ∷ cs) = codes " " ++ (c ∷ cs)

-- What the cap has appended.
pub data IsCap : Bytes → Type 0 where
  limited : IsCap []
  capped : IsCap (codes " LIMIT 10000")

-- The query with the tenant predicate: behind a WHERE of its own, where the query has none outside
-- parentheses, else behind all of the query's own condition in parentheses; the text before and the
-- clauses behind are those of the query.
pub data Scoped (sql : Bytes) (tokens : List Token) (predicate text : Bytes) : Type 0 where
  added :
      {cap : Bytes}
      → IsCap cap
      → condition_at tokens ≡ none
      → text
        ≡ trim_space (take (clause_at sql tokens) sql)
          ++ (codes " WHERE "
              ++ (predicate ++ (clauses_of (trim_space (drop (clause_at sql tokens) sql)) ++ cap)))
      → Scoped sql tokens predicate text
  joined :
      {start end : ℕ} {cap : Bytes}
      → IsCap cap
      → condition_at tokens ≡ some (start, end)
      → text
        ≡ trim_space (take end sql)
          ++ (codes " ("
              ++ (trim_space (slice sql end (clause_at sql tokens))
                  ++ (codes ") AND "
                      ++ (predicate
                          ++ (clauses_of (trim_space (drop (clause_at sql tokens) sql)) ++ cap)))))
      → Scoped sql tokens predicate text

-- The name of a table in a query: its alias, or the last part of its name.
pub data IsNamed (r : TableRef) : Bytes → Type 0 where
  by_alias : r.alias ≢ [] → IsNamed r r.alias
  by_table : r.alias ≡ [] → IsNamed r (after_last b'.' r.table)

-- The column of the table is the tenant, with the names and the value quoted.
abbrev pub column_is : Bytes → Bytes → Bytes → Bytes
column_is name column value =
    quote_identifier name
    ++ (codes "." ++ (quote_identifier column ++ (codes " = " ++ quote_literal value)))

append_suffix_lem :
    (result suffix : Bytes) → append_suffix result suffix ≡ result ++ clauses_of suffix
append_suffix_lem result [] = sym (append-nil result)
append_suffix_lem result (c ∷ cs) = refl

-- A text that the cap has still to be appended to.
abbrev Uncapped : Bytes → List Token → Bytes → Bytes → Type 0
Uncapped sql tokens p text = (cap : Bytes) → IsCap cap → Scoped sql tokens p (text ++ cap)

abbrev cut_of : Bytes → List Token → Cut
cut_of sql tokens =
    described (record { insert_at = length sql; where_at = none }) (outside 0 0 tokens)

inject_at-Scoped :
    (sql : Bytes) (tokens : List Token) (p : Bytes)
    → Uncapped sql tokens p (inject_at sql (cut_of sql tokens) p)
unfolding inject_at
inject_at-Scoped sql tokens p cap k = elim (Option-cases (condition_at tokens)) [
  | inl e ↦
      let before = trim_space (take (clause_at sql tokens) sql) in
      let suffix = trim_space (drop (clause_at sql tokens) sql) in
      let q = append_suffix_lem (before ++ (codes " WHERE " ++ p)) suffix in
      added k e (rw (e, inject_at) (ap (λ x. x ++ cap) q ∙ simp append_assoc))
  | inr ((s, t), e) ↦
      let before = trim_space (take t sql) in
      let condition = trim_space (slice sql t (clause_at sql tokens)) in
      let suffix = trim_space (drop (clause_at sql tokens) sql) in
      let q =
        append_suffix_lem (before ++ (codes " (" ++ (condition ++ (codes ") AND " ++ p)))) suffix in
      joined k e (rw (e, inject_at) (ap (λ x. x ++ cap) q ∙ simp append_assoc))
]

inject_predicate-Scoped :
    (sql : Bytes) (tokens : List Token) (p : Bytes)
    → Uncapped sql tokens p (inject_predicate sql tokens p)
unfolding inject_predicate
inject_predicate-Scoped sql tokens p cap k =
    rw (find_cut-described 0 0 _ tokens) (inject_at-Scoped sql tokens p cap k)

apply_limit-Scoped :
    (sql : Bytes) (tokens : List Token) (p text out : Bytes) (limit : Option Signed)
    → Uncapped sql tokens p text
    → apply_limit text limit ≡ ok out
    → Scoped sql tokens p out
unfolding apply_limit
apply_limit-Scoped sql tokens p text out none s h =
    rw (← ok-injective h) (s (codes " LIMIT 10000") capped)
apply_limit-Scoped sql tokens p text out (some n) s h = elim (Bool-cases (in_limit n)) [
  | inl e ↦
      rw (← ok-injective (let h' : ok text ≡ ok out = (rw e at h) in h'))
        (subst (Scoped sql tokens p) (append-nil text) (s [] limited))
  | inr e ↦ let h' : err _ ≡ ok out = (rw e at h) in cc h'
]

-- What the tenant part of a policy asks of a query's tables, and gives.
record TenantScope (policy : Token.Policy) (sql : Bytes) (tokens : List Token)
    (refs : List TableRef) (text : Bytes) : Type 0 where
  ref : TableRef
  one : refs ≡ ref ∷ []
  column : identifier policy.tenant_column ≡ true
  value : is_empty policy.tenant_value ≡ false
  scope : Uncapped sql tokens (predicate policy ref) text

one_table-TenantScope :
    (policy : Token.Policy) (sql : Bytes) (tokens : List Token) (refs : List TableRef) (out : Bytes)
    → identifier policy.tenant_column ≡ true
    → is_empty policy.tenant_value ≡ false
    → one_table policy sql tokens refs ≡ ok out
    → TenantScope policy sql tokens refs out
unfolding one_table
one_table-TenantScope policy sql tokens [] out i v h = cc
one_table-TenantScope policy sql tokens (r ∷ s ∷ rs) out i v h = cc
one_table-TenantScope policy sql tokens (r ∷ []) out i v h = record {
  ref = r;
  one = refl;
  column = i;
  value = v;
  scope = rw (← ok-injective h) (inject_predicate-Scoped sql tokens (predicate policy r));
}

apply_tenant-TenantScope :
    (policy : Token.Policy) (sql : Bytes) (tokens : List Token) (refs : List TableRef) (out : Bytes)
    → is_empty policy.tenant_column ≡ false
    → apply_tenant policy sql tokens refs ≡ ok out
    → TenantScope policy sql tokens refs out
unfolding apply_tenant
apply_tenant-TenantScope policy sql tokens refs out c h =
    elim (Bool-cases (identifier policy.tenant_column)) [
      | inl i ↦ elim (Bool-cases (is_empty policy.tenant_value)) [
        | inl v ↦ let h' : err _ ≡ ok out = (rw (c, i, v) at h) in cc h'
        | inr v ↦ one_table-TenantScope policy sql tokens refs out i v (rw (c, i, v) at h)
      ]
      | inr i ↦ let h' : err _ ≡ ok out = (rw (c, i) at h) in cc h'
    ]

module _ ⦃u : Unicode⦄ where
  qualifier-IsNamed :
      (table alias : Bytes)
      → (name : Bytes) × IsNamed (record { table = table; alias = alias }) name
        × (qualifier (record { table = table; alias = alias }) ≡ name)
  qualifier-IsNamed table [] = (after_last b'.' table, by_table refl, refl)
  qualifier-IsNamed table (c ∷ cs) = (c ∷ cs, by_alias (λ e. cc), refl)

  predicate-column_is :
      (policy : Token.Policy) (r : TableRef)
      → (name : Bytes) × IsNamed r name
        × (predicate policy r ≡ column_is name policy.tenant_column policy.tenant_value)
  unfolding predicate
  predicate-column_is policy r =
      let (name, n, e) = qualifier-IsNamed r.table r.alias in
      (name, n, ap (λ q. column_is q policy.tenant_column policy.tenant_value) e)

  -- Under a policy with a tenant column an accepted query names exactly one table behind FROM or
  -- JOIN, column and value are valid, and the text is the query with the tenant predicate, that the
  -- column of the table, under its alias or the last part of its name, is the value, all quoted;
  -- the predicate is joined to the whole of the query's own condition, in parentheses, which goes
  -- from the last WHERE to the first GROUP, ORDER, HAVING, LIMIT or OFFSET outside parentheses, or
  -- is the condition where the query has no WHERE there, and the cap may stand at the end.
  pub validate_policy-Scoped :
      (sql : Bytes) (policy : Token.Policy) (a : Accepted)
      → is_empty policy.tenant_column ≡ false
      → validate_policy sql policy ≡ ok a
      → (tokens : List Token) × (r : TableRef) × (lex (strip sql) ≡ ok tokens)
        × Reads tokens (r ∷ [])
        × (a.tables ≡ r.table ∷ [])
        × (identifier policy.tenant_column ≡ true)
        × (is_empty policy.tenant_value ≡ false)
        × (name : Bytes) × IsNamed r name
        × Scoped
            (strip sql)
            tokens
            (column_is name policy.tenant_column policy.tenant_value)
            a.sanitized
  validate_policy-Scoped sql policy a c h =
      let v = validate_policy-Validated sql policy a h in
      let t = apply_tenant-TenantScope policy (strip sql) v.tokens v.refs v.rewritten c v.scoped in
      let (name, n, e) = predicate-column_is policy t.ref in
      (
        v.tokens,
        t.ref,
        v.lexed,
        rw (← t.one) (extract_tables-Reads v.tokens v.refs v.extracted),
        v.tables_of ∙ ap (map (λ r. r.table)) t.one,
        t.column,
        t.value,
        name,
        n,
        rw (← e) (
            apply_limit-Scoped (strip sql) v.tokens (predicate policy t.ref) v.rewritten a.sanitized
              v.limit t.scope v.capped),
      )
