-- ===== src/Sandbox/Tables.antt =====
-- sandbox.go: `extractTables` and `enforceAllowlist`. The loop over `i` is a recursion on the
-- tokens; where the code moves `i` over a table reference, the recursion passes over its tokens.
pub mod Allowlist
pub mod Reads
pub mod References
use n.Base.{
  ℕ, zero, suc, ◌+◌, ◌≡◌, Bool, true, false, not, ◌&&◌, ◌||◌, List, [], ◌∷◌, map, ◌==◌, leb,
  if◌then◌else◌, Bytes, codes, eq, contains, join, Unicode, all, drop, after_last, trim_space,
  trim_bytes, is_empty,
}
use n.Sandbox.Token.{
  Token, Checked, ok, err, derived_table, table_function, missing_alias, comma_tables, no_table,
  no_allowlist, not_allowed,
}
use n.Sandbox.Lexer.{is_quote}

abbrev is_letter : ℕ → Bool
is_letter c = leb b'A' c && leb c b'Z' || leb b'a' c && leb c b'z' || c == b'_'

abbrev is_name_byte : ℕ → Bool
is_name_byte c = is_letter c || leb b'0' c && leb c b'9' || c == b'$'

-- `identifier.MatchString`: `^[A-Za-z_][A-Za-z0-9_$]*$`.
unfoldable pub identifier : Bytes → Bool
identifier [] = false
identifier (c ∷ cs) = is_letter c && all is_name_byte cs

-- `strings.Trim(value, "\"`")`.
unfoldable pub unquote : Bytes → Bytes
unfolding is_quote trim_bytes
unquote = trim_bytes is_quote

abbrev reserved : List Bytes
reserved =
    codes "where"
    ∷ codes "join"
    ∷ codes "left"
    ∷ codes "right"
    ∷ codes "inner"
    ∷ codes "outer"
    ∷ codes "full"
    ∷ codes "cross"
    ∷ codes "on"
    ∷ codes "group"
    ∷ codes "order"
    ∷ codes "having"
    ∷ codes "limit"
    ∷ codes "offset"
    ∷ []

-- One entry of `tables` with the entry of `aliases` at its index.
pub record TableRef : Type 0 where
  pub table : Bytes
  pub alias : Bytes

-- The parts that follow a name's first part, and the number of tokens that they take.
pub dotted : List Token → List Bytes × ℕ
dotted (d ∷ p ∷ r) =
    let (parts, n) = dotted r in
    if eq d.value (codes ".") then (unquote p.value ∷ parts, n + 2) else ([], 0)
dotted ts = ([], 0)

-- The alias of a table that `ts` follows, and the number of tokens that it takes.
pub alias_of : List Token → Checked (Bytes × ℕ)
alias_of [] = ok ([], 0)
alias_of (t ∷ []) =
    if eq t.value (codes "(")
    then err table_function
    else if eq t.lower (codes "as")
    then err missing_alias
    else if identifier t.value && not (contains reserved t.lower)
    then ok (t.value, 1)
    else ok ([], 0)
alias_of (t ∷ a ∷ r) =
    if eq t.value (codes "(")
    then err table_function
    else if eq t.lower (codes "as")
    then ok (unquote a.value, 2)
    else if identifier t.value && not (contains reserved t.lower)
    then ok (t.value, 1)
    else ok ([], 0)

abbrev is_comma : List Token → Bool
is_comma [] = false
is_comma (t ∷ ts) = eq t.value (codes ",")

module _ ⦃u : Unicode⦄ where
  abbrev with_alias : Bytes → ℕ → List Token → Checked (Bytes × ℕ) → Checked (TableRef × ℕ)
  with_alias table n ts (err e) = err e
  with_alias table n ts (ok (alias, k)) =
      if is_comma (drop k ts)
      then err comma_tables
      else ok (record { table = table; alias = alias }, n + k)

  -- The table reference behind a `from` or `join`, and the number of its tokens.
  table_ref : List Token → Checked (TableRef × ℕ)
  unfolding dotted alias_of
  table_ref [] = err derived_table
  table_ref (t ∷ ts) =
      let (parts, n) = dotted ts in
      let table = u.to_lower (join (codes ".") (unquote t.value ∷ parts)) in
      if eq t.value (codes "(")
      then err derived_table
      else with_alias table (n + 1) (drop n ts) (alias_of (drop n ts))

  abbrev cons_ref : TableRef → Checked (List TableRef) → Checked (List TableRef)
  cons_ref r (ok rs) = ok (r ∷ rs)
  cons_ref r (err e) = err e

  table_refs : ℕ → List Token → Checked (List TableRef)
  table_refs skip [] = ok []
  table_refs (suc skip) (t ∷ ts) = table_refs skip ts
  table_refs zero (t ∷ ts) = elim (eq t.lower (codes "from") || eq t.lower (codes "join")) [
    | false ↦ table_refs zero ts
    | true ↦ elim (table_ref ts) [ err e ↦ err e | ok (r, n) ↦ cons_ref r (table_refs n ts) ]
  ]

  abbrev some_table : Checked (List TableRef) → Checked (List TableRef)
  some_table (ok []) = err no_table
  some_table (ok (r ∷ rs)) = ok (r ∷ rs)
  some_table (err e) = err e

  unfoldable pub extract_tables : List Token → Checked (List TableRef)
  unfolding table_refs table_ref
  extract_tables tokens = some_table (table_refs zero tokens)

  abbrev pub allowed_set : List Bytes → List Bytes
  allowed_set allowed = map (λ table. u.to_lower (trim_space table)) allowed

  -- `set[table] || set[short]`.
  abbrev pub in_allowlist : List Bytes → Bytes → Bool
  in_allowlist set table = contains set table || contains set (after_last b'.' table)

  check_tables : List Bytes → List Bytes → Checked (Unit {0})
  check_tables set [] = ok tt
  check_tables set (table ∷ rest) =
      let later = check_tables set rest in
      if in_allowlist set table then later else err (not_allowed table)

  unfoldable pub enforce_allowlist : List Bytes → List Bytes → Checked (Unit {0})
  unfolding check_tables
  enforce_allowlist tables [] = err no_allowlist
  enforce_allowlist tables (a ∷ allowed) = check_tables (allowed_set (a ∷ allowed)) tables
