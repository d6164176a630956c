-- ===== src/Sandbox/Validate.antt =====
-- sandbox.go: `ValidatePolicy` and `Validate`. `ok` is the accepted `Result`; `err reason` is
-- `reject(reason)`.
pub mod Policy
pub mod Tenant
pub mod Tokens
pub mod Limit
use n.Base.{
  ℕ, zero, suc, ◌<◌, Bool, true, false, not, ◌&&◌, ◌||◌, List, [], ◌∷◌, ◌++◌, map, Option, none,
  some, ltb, if◌then◌else◌, Bytes, codes, eq, contains, is_empty, trim_space, trim_suffix,
  after_last, Unicode, Signed,
}
use n.Sandbox.Token.{
  Token, Reason, Checked, ok, err, ◌>>=◌, empty_query, not_select, multiple_statements, unbalanced,
  subquery, locking, forbidden, tenant_column_invalid, tenant_value_missing, tenant_needs_one_table,
  limit_out_of_range,
}
use n.Sandbox.Token
use n.Sandbox.Lexer.{lex}
use n.Sandbox.Quote.{quote_identifier, quote_literal}
use n.Sandbox.Tables.{identifier, TableRef, extract_tables, enforce_allowlist}
use n.Sandbox.Rewrite.{parse_limit, inject_predicate}

pub record Accepted : Type 0 where
  pub sanitized : Bytes
  pub tables : List Bytes

abbrev pub default_row_limit : ℕ
default_row_limit = 10000

abbrev pub statements : List Bytes
statements =
    codes "insert"
    ∷ codes "update"
    ∷ codes "delete"
    ∷ codes "merge"
    ∷ codes "create"
    ∷ codes "alter"
    ∷ codes "drop"
    ∷ codes "truncate"
    ∷ codes "grant"
    ∷ codes "revoke"
    ∷ codes "copy"
    ∷ codes "call"
    ∷ codes "execute"
    ∷ []

-- `isForbidden`.
unfoldable pub is_forbidden : Bytes → Bool
is_forbidden keyword = contains statements keyword

-- The keys of the map `forbidden`.
abbrev pub forbidden_words : List Bytes
forbidden_words =
    statements
    ++ (codes "into"
        ∷ codes "union"
        ∷ codes "intersect"
        ∷ codes "except"
        ∷ codes "pg_sleep"
        ∷ codes "sleep"
        ∷ codes "benchmark"
        ∷ codes "load_file"
        ∷ [])

-- The depth after a token; `none` where it falls below 0.
pub depth_after : ℕ → Token → Option ℕ
depth_after depth t =
    if eq t.value (codes "(")
    then some (suc depth)
    else if eq t.value (codes ")")
    then elim depth [ zero ↦ none | suc d ↦ some d ]
    else some depth

-- One round of the loop over the tokens.
pub check_token : ℕ → Token → Checked ℕ
check_token depth t =
    if eq t.value (codes ";") then err multiple_statements else elim (depth_after depth t) [
      | none ↦ err unbalanced
      | some d ↦
          if eq t.lower (codes "select") && ltb 0 d
          then err subquery
          else if contains forbidden_words t.lower
          then err (forbidden t.value)
          else if eq t.lower (codes "for")
          then err locking
          else ok d
    ]

pub check_tokens : ℕ → List Token → Checked (Unit {0})
check_tokens zero [] = ok tt
check_tokens (suc depth) [] = err unbalanced
check_tokens depth (t ∷ ts) = check_token depth t >>= λ d. check_tokens d ts

-- The statement must begin with SELECT.
pub check_first : List Token → Checked (Unit {0})
check_first [] = err not_select
check_first (t ∷ ts) =
    if eq t.lower (codes "select")
    then ok tt
    else if is_forbidden t.lower
    then err (forbidden t.value)
    else err not_select

abbrev pub qualifier : TableRef → Bytes
qualifier r = if is_empty r.alias then after_last b'.' r.table else r.alias

-- The tenant predicate on a table reference.
pub predicate : Token.Policy → TableRef → Bytes
predicate policy r =
    quote_identifier (qualifier r)
    ++ (codes "."
        ++ (quote_identifier policy.tenant_column
            ++ (codes " = " ++ quote_literal policy.tenant_value)))

pub one_table : Token.Policy → Bytes → List Token → List TableRef → Checked Bytes
one_table policy sql tokens (r ∷ []) = ok (inject_predicate sql tokens (predicate policy r))
one_table policy sql tokens refs = err tenant_needs_one_table

pub apply_tenant : Token.Policy → Bytes → List Token → List TableRef → Checked Bytes
apply_tenant policy sql tokens refs =
    if is_empty policy.tenant_column
    then ok sql
    else if not (identifier policy.tenant_column)
    then err tenant_column_invalid
    else if is_empty policy.tenant_value
    then err tenant_value_missing
    else one_table policy sql tokens refs

abbrev pub in_limit : Signed → Bool
in_limit (true, m) = not (ltb 0 m)
in_limit (false, m) = not (ltb default_row_limit m)

pub apply_limit : Bytes → Option Signed → Checked Bytes
apply_limit sql none = ok (sql ++ codes " LIMIT 10000")
apply_limit sql (some n) = if in_limit n then ok sql else err limit_out_of_range

-- The text that is lexed.
pub strip : Bytes → Bytes
strip sql = trim_space (trim_suffix b';' (trim_space sql))

module _ ⦃u : Unicode⦄ where
  -- `ValidatePolicy` behind the test on the empty query.
  pub validate_text : Bytes → Token.Policy → Checked Accepted
  validate_text text policy = do
    tokens ← lex text
    _ ← check_first tokens
    _ ← check_tokens 0 tokens
    refs ← extract_tables tokens
    _ ← enforce_allowlist (map (λ r. r.table) refs) policy.allowed_tables
    sanitized ← apply_tenant policy text tokens refs
    limit ← parse_limit tokens
    capped ← apply_limit sanitized limit
    ok (record { sanitized = capped; tables = map (λ r. r.table) refs })

  unfoldable pub validate_policy : Bytes → Token.Policy → Checked Accepted
  unfolding validate_text strip apply_limit apply_tenant one_table predicate check_first
      check_tokens check_token depth_after
  validate_policy sql policy =
      if is_empty (trim_space sql) then err empty_query else validate_text (strip sql) policy

  -- `Validate`.
  unfoldable pub validate : Bytes → List Bytes → Checked Accepted
  unfolding validate_policy
  validate sql allowed =
      validate_policy sql
        (record { allowed_tables = allowed; tenant_column = []; tenant_value = [] })
