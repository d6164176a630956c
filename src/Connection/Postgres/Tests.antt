-- ===== src/Connection/Postgres/Tests.antt =====
-- The adapter over a driver that answers a schema of two tables.
use n.Base.{◌≡◌, refl, true, false, List, [], ◌∷◌, none, Bytes, codes, eq, lookup, insert, delete}
use n.Job.Backend.{ok}
use n.Connection.Postgres.{
  TableInfo, SchemaRow, Driver, group, read_rows, prepare, release, execute_query, get_schema,
}
use n.Connection.Postgres.Schema.{Grouped, get_schema-Grouped}

abbrev row_of : Bytes → Bytes → SchemaRow
row_of table column = record {
  table_name = table;
  column_name = column;
  data_type = codes "text";
  is_nullable = codes "YES";
}

-- A pool is its DSN, and a query answers one row with it.
abbrev driver : Driver
driver = record {
  Config = Bytes;
  Pool = Bytes;
  Connection = Bytes;
  Cell = Bytes;
  parse_config = λ dsn. ok dsn;
  new_test_pool = λ c. ok c;
  ping = λ p. none;
  new_pool = λ dsn. ok dsn;
  query = λ p q. ok (record {
    names = codes "dsn" ∷ codes "sql" ∷ [];
    values = ok (p ∷ q ∷ []) ∷ [];
    ended = none;
  });
  connect = λ dsn. ok dsn;
  query_schema = λ c. ok (record {
    names = [];
    values =
        ok (row_of (codes "a") (codes "x"))
        ∷ ok (row_of (codes "b") (codes "y"))
        ∷ ok (row_of (codes "a") (codes "z"))
        ∷ [];
    ended = none;
  });
  number_text = λ k. codes "5";
}

abbrev tables : List TableInfo
tables =
    record {
      name = codes "a";
      columns =
          record { name = codes "x"; data_type = codes "text"; nullable = true }
          ∷ record { name = codes "z"; data_type = codes "text"; nullable = true }
          ∷ [];
    }
    ∷ record {
      name = codes "b";
      columns = record { name = codes "y"; data_type = codes "text"; nullable = true } ∷ [];
    }
    ∷ []

schema_read : get_schema driver (codes "db") ≡ ok tables
unfolding get_schema read_rows group lookup insert eq
schema_read = refl

get_schema-Grouped_example : Grouped driver (codes "db") tables
get_schema-Grouped_example = get_schema-Grouped driver (codes "db") tables schema_read

-- A connection that is prepared with another DSN keeps the pool of the first.
old_pool_kept :
    execute_query driver
      (codes "c")
      (codes "SELECT 1")
      (false, 5)
      (prepare driver (codes "c") (codes "new") (prepare driver (codes "c") (codes "old") []).1).1
    ≡ ok (((codes "dsn", codes "old") ∷ (codes "sql", codes "SELECT 1 LIMIT 5") ∷ []) ∷ [])
unfolding prepare execute_query read_rows lookup insert eq
old_pool_kept = refl

-- A released connection has no pool.
pool_released :
    lookup
      (codes "c")
      (release driver (codes "c") (prepare driver (codes "c") (codes "old") []).1).1
    ≡ none
unfolding prepare release lookup insert delete eq
pool_released = refl
