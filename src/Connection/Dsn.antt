-- ===== src/Connection/Dsn.antt =====
-- internal/dsn/builder.go: the text that tells a driver how to connect. `url.URL` is the record
-- `Url`, and how it is written, with its escapes, the parameter `url_text`.
use n.Base.{
  ◌≡◌, ◌↔◌, ◌⊎◌, inl, inr, refl, Bool, true, false, ◌||◌, List, [], ◌∷◌, ◌++◌, Option, none, some,
  Bytes, codes, is_empty, eq, contains, if◌then◌else◌, Bool-cases,
}
use n.Job.Backend.{Error, message, Result, ok, err}
use n.Worker.Value.{Value, text, Fields, get_field}

-- `query` holds the parameters by name.
pub record Url : Type 0 where
  pub scheme : Bytes
  pub host : Bytes
  pub path : Bytes
  pub user : Option (Bytes × Bytes)
  pub query : List (Bytes × Bytes)

abbrev string_of : Option Value → Bytes
string_of (some (text s)) = s
string_of found = []

-- `getString`.
unfoldable pub get_string : Fields → Bytes → Bytes
unfolding get_field
get_string m key = string_of (get_field key m)

abbrev pub or_default : Bytes → Bytes → Bytes
or_default value s = if is_empty s then value else s

abbrev user_password : Bytes → Bytes → Option (Bytes × Bytes)
user_password user pass = if is_empty user then none else some (user, pass)

pub postgres_url : Fields → Url
postgres_url m = record {
  scheme = codes "postgres";
  host =
      or_default (codes "localhost") (get_string m (codes "host"))
      ++ (codes ":" ++ or_default (codes "5432") (get_string m (codes "port")));
  path = get_string m (codes "database");
  user = user_password (get_string m (codes "user")) (get_string m (codes "password"));
  query = (codes "sslmode", or_default (codes "disable") (get_string m (codes "sslmode"))) ∷ [];
}

pub clickhouse_url : Fields → Url
clickhouse_url m = record {
  scheme = codes "clickhouse";
  host =
      or_default (codes "localhost") (get_string m (codes "host"))
      ++ (codes ":" ++ or_default (codes "9000") (get_string m (codes "port")));
  path = [];
  user = user_password (get_string m (codes "user")) (get_string m (codes "password"));
  query =
      if is_empty (get_string m (codes "database"))
      then []
      else (codes "database", get_string m (codes "database")) ∷ [];
}

-- `buildMySQLDSN`.
pub build_mysql_dsn : Fields → Bytes
build_mysql_dsn m =
    get_string m (codes "user")
    ++ (codes ":"
        ++ (get_string m (codes "password")
            ++ (codes "@tcp("
                ++ (or_default (codes "localhost") (get_string m (codes "host"))
                    ++ (codes ":"
                        ++ (or_default (codes "3306") (get_string m (codes "port"))
                            ++ (codes ")/"
                                ++ (get_string m (codes "database")
                                    ++ codes "?parseTime=true"))))))))

-- `buildSQLiteDSN`.
pub build_sqlite_dsn : Fields → Bytes
build_sqlite_dsn m = or_default (codes ":memory:") (get_string m (codes "path"))

-- `buildMSSQLDSN`.
pub build_mssql_dsn : Fields → Bytes
build_mssql_dsn m =
    codes "sqlserver://"
    ++ (get_string m (codes "user")
        ++ (codes ":"
            ++ (get_string m (codes "password")
                ++ (codes "@"
                    ++ (or_default (codes "localhost") (get_string m (codes "host"))
                        ++ (codes ":"
                            ++ (or_default (codes "1433") (get_string m (codes "port"))
                                ++ (codes "?database=" ++ get_string m (codes "database")))))))))

-- `buildBigQueryDSN`.
pub build_bigquery_dsn : Fields → Result Bytes
build_bigquery_dsn m =
    if is_empty (get_string m (codes "project_id"))
    then err (message (codes "project_id is required for bigquery"))
    else ok (
        codes "bigquery://"
        ++ (get_string m (codes "project_id")
            ++ (codes "?location=" ++ or_default (codes "US") (get_string m (codes "location")))))

module _ (url_text : Url → Bytes) where
  -- `BuildDSN`.
  unfoldable pub build_dsn : Bytes → Fields → Result Bytes
  unfolding postgres_url clickhouse_url build_mysql_dsn build_sqlite_dsn build_mssql_dsn
      build_bigquery_dsn get_string
  build_dsn adapter_type m =
      if eq (codes "postgres") adapter_type
      then ok (url_text (postgres_url m))
      else if eq (codes "clickhouse") adapter_type
      then ok (url_text (clickhouse_url m))
      else if eq (codes "mysql") adapter_type
      then ok (build_mysql_dsn m)
      else if eq (codes "sqlite") adapter_type
      then ok (build_sqlite_dsn m)
      else if eq (codes "mssql") adapter_type
      then ok (build_mssql_dsn m)
      else if eq (codes "bigquery") adapter_type
      then build_bigquery_dsn m
      else err (message (codes "unsupported adapter type: " ++ adapter_type))

  -- The types of adapter but BigQuery.
  abbrev pub server_types : List Bytes
  server_types =
      codes "postgres" ∷ codes "clickhouse" ∷ codes "mysql" ∷ codes "sqlite" ∷ codes "mssql" ∷ []

  Builds : Result Bytes → Type 0
  Builds found = (s : Bytes) × (found ≡ ok s)

  dispatch_iff :
      (p q c l g : Bool) (big : Bool) (x1 x2 x3 x4 x5 : Bytes) (found : Result Bytes) (e : Error)
      → Builds (
          if p
          then ok x1
          else if q
          then ok x2
          else if c
          then ok x3
          else if l
          then ok x4
          else if g
          then ok x5
          else if big
          then found
          else err e)
        ↔ (((p || (q || (c || (l || (g || false))))) ≡ true) ⊎ ((big ≡ true) × Builds found))
  unfolding Builds
  dispatch_iff true q c l g big x1 x2 x3 x4 x5 found e = (λ h. inl refl, λ h. (x1, refl))
  dispatch_iff false true c l g big x1 x2 x3 x4 x5 found e = (λ h. inl refl, λ h. (x2, refl))
  dispatch_iff false false true l g big x1 x2 x3 x4 x5 found e = (λ h. inl refl, λ h. (x3, refl))
  dispatch_iff false false false true g big x1 x2 x3 x4 x5 found e =
      (λ h. inl refl, λ h. (x4, refl))
  dispatch_iff false false false false true big x1 x2 x3 x4 x5 found e =
      (λ h. inl refl, λ h. (x5, refl))
  dispatch_iff false false false false false true x1 x2 x3 x4 x5 found e =
      (λ h. inr (refl, h), λ h. elim h [ inl a ↦ cc a | inr (a, f) ↦ f ])
  dispatch_iff false false false false false false x1 x2 x3 x4 x5 found e =
      (λ (s, h). cc h, λ h. elim h [ inl a ↦ cc a | inr (a, f) ↦ cc a ])

  build_bigquery_dsn_iff :
      (m : Fields)
      → Builds (build_bigquery_dsn m) ↔ (is_empty (get_string m (codes "project_id")) ≡ false)
  unfolding Builds build_bigquery_dsn
  build_bigquery_dsn_iff m = elim (Bool-cases (is_empty (get_string m (codes "project_id")))) [
    | inl e ↦ rw e (λ (s, h). cc h, λ h. cc h)
    | inr e ↦ rw e (λ h. refl, λ h. (_, refl))
  ]

  -- A DSN is built exactly for the five types of database server and file, whatever the
  -- parameters, and for BigQuery if the project is named.
  pub build_dsn_iff :
      (t : Bytes) (m : Fields)
      → ((s : Bytes) × (build_dsn t m ≡ ok s)) ↔ (
          (contains server_types t ≡ true)
          ⊎ ((eq (codes "bigquery") t ≡ true)
              × (is_empty (get_string m (codes "project_id")) ≡ false)))
  unfolding build_dsn contains Builds
  build_dsn_iff t m =
      let d =
        dispatch_iff (eq (codes "postgres") t) (eq (codes "clickhouse") t) (eq (codes "mysql") t)
          (eq (codes "sqlite") t) (eq (codes "mssql") t) (eq (codes "bigquery") t)
          (url_text (postgres_url m)) (url_text (clickhouse_url m)) (build_mysql_dsn m)
          (build_sqlite_dsn m) (build_mssql_dsn m) (build_bigquery_dsn m)
          (message (codes "unsupported adapter type: " ++ t)) in
      let g = build_bigquery_dsn_iff m in
      (
        λ h. elim (d.0 h) [ inl a ↦ inl a | inr (a, f) ↦ inr (a, g.0 f) ],
        λ h. elim h [ inl a ↦ d.1 (inl a) | inr (a, f) ↦ d.1 (inr (a, g.1 f)) ],
      )
