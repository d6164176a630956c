-- ===== src/Connection/Registry.antt =====
-- internal/registry/registry.go: which adapter answers for a type. The registry's lock makes each
-- call one step. gRPC, the built-in adapters and the plugins' clients are parameters; `closed` is
-- the list of the connections that have been closed.
pub mod Routes
use n.Base.{
  ◌≡◌, refl, sym, ap, ◌∙◌, Bool, true, false, not, List, [], ◌∷◌, ◌++◌, map, Option, none, some,
  Bytes, codes, eq, if◌then◌else◌, Bool-cases, inl, inr, Dict, lookup, insert, delete,
  lookup-insert, lookup-delete,
}
use n.Job.Backend.{Error, message, wrap, Result, ok, err}

-- The six adapters that `registerBuiltins` makes.
pub record Builtins (A : Type 0) : Type 0 where
  pub postgres : A
  pub clickhouse : A
  pub mysql : A
  pub sqlite : A
  pub mssql : A
  pub bigquery : A

pub record Network : Type 1 where
  pub Conn : Type 0
  pub Client : Type 0
  pub new_conn : Bytes → Result Conn
  pub new_client : Conn → Client

-- What `Get` returns: a built-in adapter, or the wrapper of a client.
pub data Adapter (A C : Type 0) : Type 0 where
  built_in : A → Adapter A C
  external_adapter : C → Adapter A C

module _ (A : Type 0) (net : Network) where
  pub record Registry : Type 0 where
    pub builtins : Dict A
    pub external : Dict net.Client
    pub conns : Dict net.Conn
    pub closed : List net.Conn

  abbrev pub register_builtins : Builtins A → Dict A
  register_builtins made =
      (codes "postgres", made.postgres)
      ∷ (codes "clickhouse", made.clickhouse)
      ∷ (codes "mysql", made.mysql)
      ∷ (codes "sqlite", made.sqlite)
      ∷ (codes "mssql", made.mssql)
      ∷ (codes "bigquery", made.bigquery)
      ∷ []

  -- `NewRegistry`.
  abbrev pub new_registry : Builtins A → Registry
  new_registry made = record {
    builtins = register_builtins made;
    external = [];
    conns = [];
    closed = [];
  }

  abbrev close_old : Option net.Conn → List net.Conn → List net.Conn
  close_old none closed = closed
  close_old (some conn) closed = conn ∷ closed

  -- `RemoveExternal`.
  unfoldable pub remove_external : Bytes → Registry → Registry
  unfolding lookup delete
  remove_external t r = record r {
    external = delete t r.external;
    conns = delete t r.conns;
    closed = close_old (lookup t r.conns) r.closed;
  }

  abbrev dialled : Bytes → Registry → Result net.Conn → Option Error × Registry
  dialled t r (err e) = (some (wrap (codes "dial external adapter") e), r)
  dialled t r (ok conn) = (
    none,
    record r {
      external = insert t (net.new_client conn) r.external;
      conns = insert t conn r.conns;
      closed = close_old (lookup t r.conns) r.closed;
    },
  )

  -- `RouteExternal`.
  unfoldable pub route_external : Bytes → Bytes → Bytes → Registry → Option Error × Registry
  unfolding lookup insert remove_external eq
  route_external t endpoint status r =
      if not (eq status (codes "active"))
      then (none, remove_external t r)
      else dialled t r (net.new_conn endpoint)

  abbrev delete_all : {V W : Type 0} → Dict W → Dict V → Dict V
  delete_all [] entries = entries
  delete_all (entry ∷ rest) entries = delete entry.0 (delete_all rest entries)

  -- `Close`.
  unfoldable pub close : Registry → Registry
  unfolding delete
  close r = record r {
    external = delete_all r.conns r.external;
    conns = [];
    closed = map (λ entry. entry.1) r.conns ++ r.closed;
  }

  abbrev pub external_of : Bytes → Option net.Client → Result (Adapter A net.Client)
  external_of t none = err (message (codes "unknown adapter type: " ++ t))
  external_of t (some client) = ok (external_adapter client)

  abbrev pub builtin_or : Result (Adapter A net.Client) → Option A → Result (Adapter A net.Client)
  builtin_or other none = other
  builtin_or other (some a) = ok (built_in a)

  -- `Get`.
  unfoldable pub get : Bytes → Registry → Result (Adapter A net.Client)
  unfolding lookup
  get t r = builtin_or (external_of t (lookup t r.external)) (lookup t r.builtins)

  abbrev is_some : Option net.Client → Bool
  is_some none = false
  is_some (some client) = true

  -- `IsExternal`.
  unfoldable pub is_external : Bytes → Registry → Bool
  unfolding lookup
  is_external t r = is_some (lookup t r.external)

  -- `RegisterExternal`.
  unfoldable pub register_external : Bytes → net.Client → Registry → Registry
  unfolding insert
  register_external t client r = record r { external = insert t client r.external }
