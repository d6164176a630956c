-- ===== src/Sandbox/Tests.antt =====
-- Runs of the sandbox on the queries of its own tests, and the theorems at such queries.
use n.Base.{
  Option, some, none, ◌+◌, ◌≡◌, ◌≢◌, ◌↔◌, refl, true, false, List, [], ◌∷◌, ◌++◌, arith, Bytes,
  codes, Unicode, ascii, All, is_empty, length, contains, eq, trim_space, trim_suffix, after_last,
  join, replace_all, atoi,
}
use n.Sandbox.Token.{Token, Policy, Checked, ok, err}
use n.Sandbox.Lexer.{lex, lex_from, put}
use n.Sandbox.Lexer.Tiles.{Tiles, lex-Tiles}
use n.Sandbox.Lexer.Literal.{lex_from-quote_literal}
use n.Sandbox.Quote.{quote_identifier, quote_literal}
use n.Sandbox.Rewrite.{inject_predicate, parse_limit}
use n.Sandbox.Tables.{TableRef, extract_tables, identifier, unquote, enforce_allowlist}
use n.Sandbox.Tables.Reads.{Reads}
use n.Sandbox.Tables.Allowlist.{Listed, enforce_allowlist_iff}
use n.Sandbox.Validate.{Accepted, is_forbidden, strip, validate_policy}
use n.Sandbox.Validate.Policy.{TablesOf, validate_policy-tables}
use n.Sandbox.Validate.Tenant.{Scoped, IsNamed, column_is, validate_policy-Scoped}
use n.Sandbox.Validate.Tokens.{StartsSelect, Plain, validate_policy-Plain}
use n.Sandbox.Validate.Limit.{Capped, validate_policy-Capped}

instance abbrev go_ascii : Unicode
go_ascii = ascii

abbrev query : Bytes
query = codes "SELECT id FROM public.Orders WHERE a = 'x' OR b = 2 ORDER BY id;"

abbrev policy : Policy
policy = record {
  allowed_tables = codes " orders " ∷ [];
  tenant_column = codes "tenant_id";
  tenant_value = codes "o'neil";
}

abbrev accepted : Accepted
accepted = record {
  sanitized =
      codes
        "SELECT id FROM public.Orders WHERE (a = 'x' OR b = 2) AND \"orders\".\"tenant_id\" = 'o''neil' ORDER BY id LIMIT 10000";
  tables = codes "public.orders" ∷ [];
}

query-accepted : validate_policy query policy ≡ ok accepted
unfolding validate_policy lex extract_tables enforce_allowlist identifier inject_predicate
    parse_limit contains eq trim_space trim_suffix after_last join replace_all quote_identifier
    quote_literal atoi unquote is_forbidden
query-accepted = refl

abbrev text : Bytes
text = codes "a ';'"

abbrev tokens : List Token
tokens =
    record { value = codes "a"; lower = codes "a"; start = 0; end = 1 }
    ∷ record { value = codes "';'"; lower = codes "';'"; start = 2; end = 5 }
    ∷ []

text_lexed : lex text ≡ ok tokens
unfolding lex
text_lexed = refl

lex-Tiles_example : Tiles 0 text tokens
lex-Tiles_example = lex-Tiles text tokens text_lexed

lex_from-quote_literal_example :
    lex_from 0 7 (quote_literal (codes "o'; DROP") ++ codes " LIMIT 1")
    ≡ put
        (record {
          value = quote_literal (codes "o'; DROP");
          lower = quote_literal (codes "o'; DROP");
          start = 7;
          end = 7 + length (quote_literal (codes "o'; DROP"));
        })
        (lex_from 0 (7 + length (quote_literal (codes "o'; DROP"))) (codes " LIMIT 1"))
lex_from-quote_literal_example =
    lex_from-quote_literal (codes "o'; DROP") (codes " LIMIT 1") 7 (omega arith)

enforce_allowlist_iff_example :
    (enforce_allowlist (codes "public.orders" ∷ []) (codes "orders" ∷ []) ≡ ok tt) ↔ (
      ((codes "orders" ∷ []) ≢ [])
      × All (Listed (codes "orders" ∷ [])) (codes "public.orders" ∷ []))
enforce_allowlist_iff_example =
    enforce_allowlist_iff (codes "public.orders" ∷ []) (codes "orders" ∷ [])

validate_policy-tables_example :
    TablesOf query accepted.tables
    × (accepted.tables ≢ [])
    × (policy.allowed_tables ≢ [])
    × All (Listed policy.allowed_tables) accepted.tables
validate_policy-tables_example = validate_policy-tables query policy accepted query-accepted

validate_policy-Scoped_example :
    (tokens : List Token) × (r : TableRef) × (lex (strip query) ≡ ok tokens)
    × Reads tokens (r ∷ [])
    × (accepted.tables ≡ r.table ∷ [])
    × (identifier policy.tenant_column ≡ true)
    × (is_empty policy.tenant_value ≡ false)
    × (name : Bytes) × IsNamed r name
    × Scoped
        (strip query)
        tokens
        (column_is name policy.tenant_column policy.tenant_value)
        accepted.sanitized
validate_policy-Scoped_example = validate_policy-Scoped query policy accepted refl query-accepted

validate_policy-Plain_example :
    (ts : List Token) × (lex (strip query) ≡ ok ts) × StartsSelect ts × Plain 0 ts
validate_policy-Plain_example = validate_policy-Plain query policy accepted query-accepted

validate_policy-Capped_example :
    (ts : List Token) × (lex (strip query) ≡ ok ts) × Capped ts accepted.sanitized
validate_policy-Capped_example = validate_policy-Capped query policy accepted query-accepted

-- Behind a group of column aliases, and behind the condition of a join, a comma starts a table that
-- is not looked up in the allowlist.
abbrev tables_accepted : Checked Accepted → Option (List Bytes)
tables_accepted (ok a) = some a.tables
tables_accepted (err e) = none

abbrev orders_only : Policy
orders_only = record {
  allowed_tables = codes "orders" ∷ codes "c" ∷ [];
  tenant_column = [];
  tenant_value = [];
}

unlisted_behind_column_aliases :
    tables_accepted
      (validate_policy (codes "SELECT orders.x FROM orders AS o (a), secrets") orders_only)
    ≡ some (codes "orders" ∷ [])
unfolding validate_policy lex extract_tables enforce_allowlist identifier inject_predicate
    parse_limit contains eq trim_space trim_suffix after_last join replace_all quote_identifier
    quote_literal atoi unquote is_forbidden
unlisted_behind_column_aliases = refl

unlisted_behind_condition :
    tables_accepted
      (validate_policy (codes "SELECT s.x FROM orders JOIN c ON a = b, secrets") orders_only)
    ≡ some (codes "orders" ∷ codes "c" ∷ [])
unfolding validate_policy lex extract_tables enforce_allowlist identifier inject_predicate
    parse_limit contains eq trim_space trim_suffix after_last join replace_all quote_identifier
    quote_literal atoi unquote is_forbidden
unlisted_behind_condition = refl
