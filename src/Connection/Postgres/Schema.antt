-- ===== src/Connection/Postgres/Schema.antt =====
-- postgres.go: how `GetSchema` groups the columns by table.
use mathlib.Core.List.{append-nil, append_assoc}
use n.Base.{
  ◌≡◌, refl, sym, ap, ◌∙◌, List, [], ◌∷◌, ◌++◌, map, Option, none, some, Bytes, eq, eq_iff, Dict,
  lookup, insert, lookup-insert, if◌then◌else◌, Bool-cases, inl, inr,
}
use n.Job.Backend.{Error, Result, ok, err}
use n.Connection.Postgres.{
  ColumnInfo, SchemaRow, TableInfo, Rows, Driver, column_of, with_column, group, tables_of,
  next_row, read_rows, iterated, grouped, schema_rows, connected, get_schema,
}

-- The columns of the rows of one table, in the order of the rows.
unfoldable pub columns_of : Bytes → List SchemaRow → List ColumnInfo
columns_of t [] = []
columns_of t (r ∷ rest) =
    let later = columns_of t rest in if eq r.table_name t then column_of r ∷ later else later

-- A table that has columns.
abbrev pub if_any : List ColumnInfo → Option (List ColumnInfo)
if_any [] = none
if_any (c ∷ columns) = some (c ∷ columns)

-- Columns behind those of a table, if it is there.
abbrev behind : Option (List ColumnInfo) → List ColumnInfo → Option (List ColumnInfo)
behind none columns = if_any columns
behind (some first) columns = some (first ++ columns)

behind-nil : (found : Option (List ColumnInfo)) → behind found [] ≡ found
behind-nil none = refl
behind-nil (some first) = ap some (append-nil first)

behind-cons :
    (found : Option (List ColumnInfo)) (c : ColumnInfo) (columns : List ColumnInfo)
    → behind (some (with_column c found)) columns ≡ behind found (c ∷ columns)
behind-cons none c columns = refl
behind-cons (some first) c columns = ap some (append_assoc first (c ∷ []) columns)

lookup-group :
    (t : Bytes) (rows : List SchemaRow) (tables : Dict (List ColumnInfo))
    → lookup t (group rows tables) ≡ behind (lookup t tables) (columns_of t rows)
unfolding group columns_of
lookup-group t [] tables = sym (behind-nil (lookup t tables))
lookup-group t (r ∷ rest) tables =
    let columns = with_column (column_of r) (lookup r.table_name tables) in
    let later = lookup-group t rest (insert r.table_name columns tables) in
    let e = lookup-insert r.table_name columns tables t in
    elim (Bool-cases (eq r.table_name t)) [
      | inl p ↦
          let q : r.table_name ≡ t = (eq_iff r.table_name t).0 p in
          let k = behind-cons (lookup r.table_name tables) (column_of r) (columns_of t rest) in
          let w = ap (λ x. behind (lookup x tables) (column_of r ∷ columns_of t rest)) q in
          rw later (rw e (rw p (k ∙ w)))
      | inr n ↦ rw later (rw e (rw n refl))
    ]

-- The columns of the first table of that name.
unfoldable pub table_named : Bytes → List TableInfo → Option (List ColumnInfo)
table_named t [] = none
table_named t (x ∷ rest) =
    let later = table_named t rest in if eq x.name t then some x.columns else later

table_named-tables_of :
    (t : Bytes) (tables : Dict (List ColumnInfo))
    → table_named t (tables_of tables) ≡ lookup t tables
unfolding table_named lookup
table_named-tables_of t [] = refl
table_named-tables_of t (entry ∷ rest) = rw (table_named-tables_of t rest) refl

next_row-ok :
    (x : SchemaRow) (found : Result (List SchemaRow)) (out : List SchemaRow)
    → next_row x found ≡ ok out
    → (xs : List SchemaRow) × (found ≡ ok xs) × (out ≡ x ∷ xs)
next_row-ok x (ok xs) out h = (xs, refl, cc h)
next_row-ok x (err e) out h = cc h

read_rows-ok :
    (prefix : Bytes) (values : List (Result SchemaRow)) (out : List SchemaRow)
    → read_rows prefix (λ r. r) values ≡ ok out
    → values ≡ map (λ r. ok r) out
unfolding read_rows
read_rows-ok prefix [] out h = let e : [] ≡ out = cc h in rw (← e) refl
read_rows-ok prefix (err e ∷ rest) out h = cc h
read_rows-ok prefix (ok x ∷ rest) out h =
    let (xs, e, k) = next_row-ok x (read_rows prefix (λ r. r) rest) out h in
    rw k (ap (λ rs. ok x ∷ rs) (read_rows-ok prefix rest xs e))

module _ (driver : Driver) where
  -- A schema that is read from the rows of a connection, all of which are read: each table has the
  -- columns of its rows, in their order, and a table without a row is not there.
  pub record Grouped (dsn : Bytes) (tables : List TableInfo) : Type 0 where
    pub connection : driver.Connection
    pub answer : Rows SchemaRow
    pub rows : List SchemaRow
    pub opened : driver.connect dsn ≡ ok connection
    pub queried : driver.query_schema connection ≡ ok answer
    pub complete : answer.values ≡ map (λ r. ok r) rows
    pub columns_are : (t : Bytes) → table_named t tables ≡ if_any (columns_of t rows)

  iterated-ok :
      (ended : Option Error) (found : Result (List SchemaRow)) (rows : List SchemaRow)
      → iterated ended found ≡ ok rows
      → found ≡ ok rows
  iterated-ok ended (err e) rows h = cc h
  iterated-ok none (ok xs) rows h = h
  iterated-ok (some e) (ok xs) rows h = cc h

  grouped-columns :
      (found : Result (List SchemaRow)) (tables : List TableInfo)
      → grouped driver found ≡ ok tables
      → (rows : List SchemaRow) × (found ≡ ok rows)
        × ((t : Bytes) → table_named t tables ≡ if_any (columns_of t rows))
  unfolding lookup
  grouped-columns (err e) tables h = cc h
  grouped-columns (ok rows) tables h =
      let e : tables_of (group rows []) ≡ tables = cc h in
      (rows, refl, λ t. rw (← e) (table_named-tables_of t (group rows []) ∙ lookup-group t rows []))

  schema_rows-Grouped :
      (dsn : Bytes) (connection : driver.Connection) (found : Result (Rows SchemaRow))
      (tables : List TableInfo)
      → driver.connect dsn ≡ ok connection
      → driver.query_schema connection ≡ found
      → schema_rows driver found ≡ ok tables
      → Grouped dsn tables
  schema_rows-Grouped dsn connection (err e) tables c q h = cc h
  schema_rows-Grouped dsn connection (ok answer) tables c q h =
      let (rows, e, k) = grouped-columns _ tables h in
      record {
        connection = connection;
        answer = answer;
        rows = rows;
        opened = c;
        queried = q;
        complete = read_rows-ok _ answer.values rows (iterated-ok answer.ended _ rows e);
        columns_are = k;
      }

  connected-Grouped :
      (dsn : Bytes) (found : Result driver.Connection) (tables : List TableInfo)
      → driver.connect dsn ≡ found
      → connected driver found ≡ ok tables
      → Grouped dsn tables
  connected-Grouped dsn (err e) tables c h = cc h
  connected-Grouped dsn (ok connection) tables c h =
      schema_rows-Grouped dsn connection _ tables c refl h

  -- An answered schema has, for each table of the rows that the database has answered, all of
  -- their columns for it, in the order of the rows, and no table without a row.
  pub get_schema-Grouped :
      (dsn : Bytes) (tables : List TableInfo)
      → get_schema driver dsn ≡ ok tables
      → Grouped dsn tables
  unfolding get_schema
  get_schema-Grouped dsn tables h = connected-Grouped dsn _ tables refl h
