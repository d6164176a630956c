-- ===== src/Sandbox/Token.antt =====
-- sandbox.go: `token`, `Policy`, and the reasons for which a query is rejected. A reason stands
-- for the message of the `fmt.Errorf` or `reject` call beside it; `Reason.text` writes it.
use n.Base.{ℕ, ◌++◌, List, Bytes, codes}

pub record Token : Type 0 where
  pub value : Bytes
  pub lower : Bytes
  pub start : ℕ
  pub end : ℕ

pub record Policy : Type 0 where
  pub allowed_tables : List Bytes
  pub tenant_column : Bytes
  pub tenant_value : Bytes

pub data Reason : Type 0 where
  empty_query not_select multiple_statements unbalanced subquery locking : Reason
  comment unterminated_literal unterminated_identifier : Reason
  derived_table table_function missing_alias comma_tables no_table : Reason
  no_allowlist tenant_column_invalid tenant_value_missing tenant_needs_one_table : Reason
  limit_not_numeric limit_out_of_range : Reason
  forbidden not_allowed : Bytes → Reason

-- The messages; `quoted` is the `%q` of `fmt`, which is not read here.
pub reason_text : (quoted : Bytes → Bytes) → Reason → Bytes
reason_text quoted empty_query = codes "empty query"
reason_text quoted not_select = codes "query must start with SELECT"
reason_text quoted multiple_statements = codes "multiple SQL statements are not allowed"
reason_text quoted unbalanced = codes "unbalanced parentheses"
reason_text quoted subquery = codes "subqueries are not allowed"
reason_text quoted locking = codes "locking SELECT is not allowed"
reason_text quoted comment = codes "SQL comments are not allowed"
reason_text quoted unterminated_literal = codes "unterminated string literal"
reason_text quoted unterminated_identifier = codes "unterminated identifier"
reason_text quoted derived_table = codes "derived tables and subqueries are not allowed"
reason_text quoted table_function = codes "table functions are not allowed"
reason_text quoted missing_alias = codes "missing table alias"
reason_text quoted comma_tables = codes "comma-separated tables are not allowed; use explicit JOIN"
reason_text quoted no_table = codes "SELECT must reference a base table"
reason_text quoted no_allowlist = codes "table allowlist is required"
reason_text quoted tenant_column_invalid = codes "invalid tenant column policy"
reason_text quoted tenant_value_missing = codes "tenant value is required by policy"
reason_text quoted tenant_needs_one_table =
    codes "tenant predicate injection requires exactly one base table"
reason_text quoted limit_not_numeric = codes "LIMIT must be numeric"
reason_text quoted limit_out_of_range = codes "LIMIT must be between 0 and 10000"
reason_text quoted (forbidden v) = codes "forbidden SQL construct: " ++ v
reason_text quoted (not_allowed t) = codes "table " ++ (quoted t ++ codes " is not allowed")

-- What a fallible step of the validation returns.
pub data Checked {ℓ} (A : Type ℓ) : Type ℓ where
  ok : A → Checked A
  err : Reason → Checked A

infixl 5 ◌>>=◌
abbrev pub ◌>>=◌ {ℓ κ} : {A : Type ℓ} {B : Type κ} → Checked A → (A → Checked B) → Checked B
ok a >>= f = f a
err e >>= f = err e
