-- ===== src/Connection/Service/Answers.antt =====
-- grpc.go: what a result of `ExecuteQuery` is made of.
use n.Base.{
  lookup, suc, ◌≡◌, ◌≢◌, refl, ap, List, [], ◌∷◌, map, Option, none, some, Bytes, length, Dict,
}
use n.Job.Backend.{Error, Result, ok, err}
use n.Connection.Registry
use n.Connection.Registry.{Adapter, Network, get}
use n.Connection.Service.{
  Request, Response, Drivers, connection_config, values, pb_rows, response_of, with_rows,
  with_prepared, with_config, with_adapter, execute_query,
}

abbrev pub keys : {V : Type 0} → Dict V → List Bytes
keys row = map (λ entry. entry.0) row

module _ (A : Type 0) (net : Network) (drivers : Drivers A net) where
  -- The columns are those of the first row that has any; a row before it is an empty one, and it
  -- and every later row has under each of these columns what `Sprintf` writes of its cell there.
  pub data IsTable : List (Dict drivers.Cell) → Response → Type 0 where
    no_rows : {out : Response} → out.columns ≡ [] → out.rows ≡ [] → IsTable [] out
    no_columns :
        {rest : List (Dict drivers.Cell)} {out later : Response}
        → IsTable rest later
        → out.columns ≡ later.columns
        → out.rows ≡ [] ∷ later.rows
        → IsTable ([] ∷ rest) out
    table :
        {first : Dict drivers.Cell} {rest : List (Dict drivers.Cell)} {out : Response}
        → first ≢ []
        → out.columns ≡ keys first
        → out.rows
          ≡ map
              (λ row. map (λ column. drivers.sprint (lookup column row)) (keys first))
              (first ∷ rest)
        → IsTable (first ∷ rest) out

  -- The steps that have led to a result.
  pub record Executed (r : Registry.Registry A net) (req : Request) (s s' : drivers.State)
      (out : Response) : Type 0 where
    pub adapter : Adapter A net.Client
    pub config : Bytes
    pub prepared : drivers.State
    pub found : List (Dict drivers.Cell)
    pub adapter_is : get A net req.adapter_type r ≡ ok adapter
    pub config_is : connection_config A net drivers req.adapter_type req.params r ≡ ok config
    pub was_prepared : drivers.prepare adapter req.connection_id config s ≡ (none, prepared)
    pub was_executed :
        drivers.execute adapter req.connection_id req.sql req.limit prepared ≡ (ok found, s')
    pub is_table : IsTable found out
    pub count_is : out.row_count ≡ length found

  pb_rows-columns :
      (c : Bytes) (columns : List Bytes) (rows : List (Dict drivers.Cell))
      → pb_rows A net drivers (c ∷ columns) rows
        ≡ (c ∷ columns, map (values A net drivers (c ∷ columns)) rows)
  unfolding pb_rows
  pb_rows-columns c columns [] = refl
  pb_rows-columns c columns (row ∷ rest) = rw (pb_rows-columns c columns rest) refl

  pb_rows-length :
      (columns : List Bytes) (rows : List (Dict drivers.Cell))
      → length (pb_rows A net drivers columns rows).1 ≡ length rows
  unfolding pb_rows
  pb_rows-length columns [] = refl
  pb_rows-length [] (row ∷ rest) = ap (λ k. suc k) (pb_rows-length (keys row) rest)
  pb_rows-length (c ∷ columns) (row ∷ rest) = ap (λ k. suc k) (pb_rows-length (c ∷ columns) rest)

  pb_rows-IsTable :
      (rows : List (Dict drivers.Cell))
      → IsTable rows (response_of A net drivers (pb_rows A net drivers [] rows))
  unfolding pb_rows
  pb_rows-IsTable [] = no_rows refl refl
  pb_rows-IsTable ([] ∷ rest) = no_columns (pb_rows-IsTable rest) refl refl
  pb_rows-IsTable ((entry ∷ row) ∷ rest) =
      let e = pb_rows-columns entry.0 (keys row) rest in
      table (λ h. cc h) (ap (λ x. x.0) e)
        (ap (λ x. values A net drivers (keys (entry ∷ row)) (entry ∷ row) ∷ x.1) e)

  with_rows-Executed :
      (out : Result (List (Dict drivers.Cell)) × drivers.State) (resp : Response)
      (s' : drivers.State)
      → with_rows A net drivers out ≡ (ok resp, s')
      → (found : List (Dict drivers.Cell)) × (out ≡ (ok found, s'))
        × IsTable found resp
        × (resp.row_count ≡ length found)
  unfolding with_rows
  with_rows-Executed (err e, s) resp s' h = let q = ap (λ x. x.0) h in cc q
  with_rows-Executed (ok found, s) resp s' h =
      let t : s ≡ s' = ap (λ x. x.1) h in
      let q : ok (response_of A net drivers (pb_rows A net drivers [] found)) ≡ ok resp =
        ap (λ x. x.0) h in
      let e : response_of A net drivers (pb_rows A net drivers [] found) ≡ resp = cc q in
      (found, rw t refl, rw (← e) (pb_rows-IsTable found), rw (← e) (pb_rows-length [] found))

  with_prepared-Executed :
      (a : Adapter A net.Client) (req : Request) (out : Option Error × drivers.State)
      (resp : Response) (s' : drivers.State)
      → with_prepared A net drivers a req out ≡ (ok resp, s')
      → (t : drivers.State) × (out ≡ (none, t))
        × (with_rows A net drivers (drivers.execute a req.connection_id req.sql req.limit t)
            ≡ (ok resp, s'))
  unfolding with_prepared
  with_prepared-Executed a req (some e, s) resp s' h = let q = ap (λ x. x.0) h in cc q
  with_prepared-Executed a req (none, s) resp s' h = (s, refl, h)

  with_config-Executed :
      (a : Adapter A net.Client) (req : Request) (s : drivers.State) (found : Result Bytes)
      (resp : Response) (s' : drivers.State)
      → with_config A net drivers a req s found ≡ (ok resp, s')
      → (dsn : Bytes) × (found ≡ ok dsn)
        × (with_prepared A net drivers a req (drivers.prepare a req.connection_id dsn s)
            ≡ (ok resp, s'))
  unfolding with_config
  with_config-Executed a req s (err e) resp s' h = let q = ap (λ x. x.0) h in cc q
  with_config-Executed a req s (ok dsn) resp s' h = (dsn, refl, h)

  with_adapter-Executed :
      (r : Registry.Registry A net) (req : Request) (s : drivers.State)
      (found : Result (Adapter A net.Client)) (resp : Response) (s' : drivers.State)
      → get A net req.adapter_type r ≡ found
      → with_adapter A net drivers r req s found ≡ (ok resp, s')
      → Executed r req s s' resp
  unfolding with_adapter
  with_adapter-Executed r req s (err e) resp s' w h = let q = ap (λ x. x.0) h in cc q
  with_adapter-Executed r req s (ok a) resp s' w h =
      let (dsn, c, h1) = with_config-Executed a req s _ resp s' h in
      let (t, p, h2) = with_prepared-Executed a req _ resp s' h1 in
      let (found, x, is_table, count) = with_rows-Executed _ resp s' h2 in
      record {
        adapter = a;
        config = dsn;
        prepared = t;
        found = found;
        adapter_is = w;
        config_is = c;
        was_prepared = p;
        was_executed = x;
        is_table = is_table;
        count_is = count;
      }

  -- A result of `ExecuteQuery` comes from the adapter that the registry has for the type, prepared
  -- with the configuration of the parameters and run on the query and the limit of the request; it
  -- counts the rows that the adapter has returned, and is their table: its columns are those of the
  -- first row that has any, the rows before it are empty, and it and each later row is written out
  -- under these columns.
  pub execute_query-Executed :
      (r : Registry.Registry A net) (req : Request) (s s' : drivers.State) (resp : Response)
      → execute_query A net drivers r req s ≡ (ok resp, s')
      → Executed r req s s' resp
  unfolding execute_query
  execute_query-Executed r req s s' resp h = with_adapter-Executed r req s _ resp s' refl h
