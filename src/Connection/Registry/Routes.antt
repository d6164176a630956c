-- ===== src/Connection/Registry/Routes.antt =====
-- registry.go: the routes to the plugins, type by type.
use n.Base.{
  ◌≡◌, refl, ap, ◌∙◌, List, [], ◌∷◌, Option, none, some, Bytes, codes, eq, if◌then◌else◌,
  Bool-cases, inl, inr, Dict, lookup, lookup-insert, lookup-delete,
}
use n.Job.Backend.{Result, ok, err}
use n.Connection.Registry.{
  Builtins, Network, Registry, register_builtins, new_registry, remove_external, dialled,
  route_external, delete_all, close, external_of, builtin_or, get,
}

module _ (A : Type 0) (net : Network) where
  -- A call that changes the routes.
  pub data Call : Type 0 where
    route : Bytes → Bytes → Bytes → Call
    remove : Bytes → Call
    close_routes : Call

  abbrev pub step : Call → Registry A net → Registry A net
  step (route t endpoint status) r = (route_external A net t endpoint status r).1
  step (remove t) r = remove_external A net t r
  step close_routes r = close A net r

  unfoldable pub steps : List Call → Registry A net → Registry A net
  steps [] r = r
  steps (c ∷ cs) r = steps cs (step c r)

  abbrev pub client_of : Option net.Conn → Option net.Client
  client_of none = none
  client_of (some conn) = some (net.new_client conn)

  -- Each type that has a client has the connection that the client stands on, and conversely.
  pub record IsRouted (r : Registry A net) : Type 0 where
    pub paired : (t : Bytes) → lookup t r.external ≡ client_of (lookup t r.conns)

  remove-IsRouted :
      (t : Bytes) (r : Registry A net) → IsRouted r → IsRouted (remove_external A net t r)
  unfolding remove_external
  remove-IsRouted t r g = record {
    paired = λ j. elim (Bool-cases (eq t j)) [
      | inl e ↦ rw (lookup-delete t r.external j) (rw (lookup-delete t r.conns j) (rw e refl))
      | inr e ↦
          rw (lookup-delete t r.external j) (rw (lookup-delete t r.conns j) (rw e (g.paired j)))
    ];
  }

  dialled-IsRouted :
      (t : Bytes) (r : Registry A net) (found : Result net.Conn)
      → IsRouted r
      → IsRouted (dialled A net t r found).1
  dialled-IsRouted t r (err e) g = g
  dialled-IsRouted t r (ok conn) g = record {
    paired = λ j. elim (Bool-cases (eq t j)) [
      | inl e ↦
          rw (lookup-insert t (net.new_client conn) r.external j)
            (rw (lookup-insert t conn r.conns j) (rw e refl))
      | inr e ↦
          rw (lookup-insert t (net.new_client conn) r.external j)
            (rw (lookup-insert t conn r.conns j) (rw e (g.paired j)))
    ];
  }

  route-IsRouted :
      (t endpoint status : Bytes) (r : Registry A net)
      → IsRouted r
      → IsRouted (route_external A net t endpoint status r).1
  unfolding route_external
  route-IsRouted t endpoint status r g = elim (Bool-cases (eq status (codes "active"))) [
    | inl e ↦ rw e (dialled-IsRouted t r (net.new_conn endpoint) g)
    | inr e ↦ rw e (remove-IsRouted t r g)
  ]

  abbrev drop_if : {V W : Type 0} → Option W → Option V → Option V
  drop_if none found = found
  drop_if (some w) found = none

  lookup-delete_all :
      {V W : Type 0} (gone : Dict W) (entries : Dict V) (j : Bytes)
      → lookup j (delete_all A net gone entries) ≡ drop_if (lookup j gone) (lookup j entries)
  unfolding lookup
  lookup-delete_all [] entries j = refl
  lookup-delete_all (entry ∷ rest) entries j = elim (Bool-cases (eq entry.0 j)) [
    | inl e ↦ lookup-delete entry.0 (delete_all A net rest entries) j ∙ rw e refl
    | inr e ↦
        lookup-delete entry.0 (delete_all A net rest entries) j
        ∙ rw e (lookup-delete_all rest entries j)
  ]

  drop_if-client : (found : Option net.Conn) → drop_if found (client_of found) ≡ none
  drop_if-client none = refl
  drop_if-client (some c) = refl

  close-IsRouted : (r : Registry A net) → IsRouted r → IsRouted (close A net r)
  unfolding close lookup
  close-IsRouted r g = record {
    paired = λ t.
        lookup-delete_all r.conns r.external t
        ∙ ap (drop_if (lookup t r.conns)) (g.paired t)
        ∙ drop_if-client (lookup t r.conns);
  }

  step-IsRouted : (c : Call) (r : Registry A net) → IsRouted r → IsRouted (step c r)
  step-IsRouted (route t endpoint status) r g = route-IsRouted t endpoint status r g
  step-IsRouted (remove t) r g = remove-IsRouted t r g
  step-IsRouted close_routes r g = close-IsRouted r g

  steps-IsRouted : (cs : List Call) (r : Registry A net) → IsRouted r → IsRouted (steps cs r)
  unfolding steps
  steps-IsRouted [] r g = g
  steps-IsRouted (c ∷ cs) r g = steps-IsRouted cs (step c r) (step-IsRouted c r g)

  -- The connection of one type: what a call makes of it.
  abbrev redial : Option net.Conn → Result net.Conn → Option net.Conn
  redial prior (err e) = prior
  redial prior (ok conn) = some conn

  abbrev after : Bytes → Call → Option net.Conn → Option net.Conn
  after j (route t endpoint status) prior =
      if eq t j
      then (if eq status (codes "active") then redial prior (net.new_conn endpoint) else none)
      else prior
  after j (remove t) prior = if eq t j then none else prior
  after j close_routes prior = none

  unfoldable pub routed : Bytes → List Call → Option net.Conn → Option net.Conn
  routed j [] prior = prior
  routed j (c ∷ cs) prior = routed j cs (after j c prior)

  dialled-after :
      (t j : Bytes) (r : Registry A net) (found : Result net.Conn)
      → lookup j (dialled A net t r found).1.conns
        ≡ (if eq t j then redial (lookup j r.conns) found else lookup j r.conns)
  dialled-after t j r (err e) = elim (Bool-cases (eq t j)) [ inl p ↦ rw p refl | inr p ↦ rw p refl ]
  dialled-after t j r (ok conn) = lookup-insert t conn r.conns j

  step-after :
      (j : Bytes) (c : Call) (r : Registry A net)
      → lookup j (step c r).conns ≡ after j c (lookup j r.conns)
  unfolding route_external remove_external close lookup
  step-after j (route t endpoint status) r = elim (Bool-cases (eq status (codes "active"))) [
    | inl e ↦ rw (e, step) (dialled-after t j r (net.new_conn endpoint))
    | inr e ↦ rw (e, step) (lookup-delete t r.conns j)
  ]
  step-after j (remove t) r = lookup-delete t r.conns j
  step-after j close_routes r = refl

  steps-routed :
      (j : Bytes) (cs : List Call) (r : Registry A net)
      → lookup j (steps cs r).conns ≡ routed j cs (lookup j r.conns)
  unfolding steps routed
  steps-routed j [] r = refl
  steps-routed j (c ∷ cs) r = steps-routed j cs (step c r) ∙ ap (routed j cs) (step-after j c r)

  dialled-builtins :
      (t : Bytes) (r : Registry A net) (found : Result net.Conn)
      → (dialled A net t r found).1.builtins ≡ r.builtins
  dialled-builtins t r (err e) = refl
  dialled-builtins t r (ok conn) = refl

  step-builtins : (c : Call) (r : Registry A net) → (step c r).builtins ≡ r.builtins
  unfolding route_external remove_external close
  step-builtins (route t endpoint status) r = elim (Bool-cases (eq status (codes "active"))) [
    | inl e ↦ rw (e, step) (dialled-builtins t r (net.new_conn endpoint))
    | inr e ↦ rw (e, step) refl
  ]
  step-builtins (remove t) r = refl
  step-builtins close_routes r = refl

  steps-builtins : (cs : List Call) (r : Registry A net) → (steps cs r).builtins ≡ r.builtins
  unfolding steps
  steps-builtins [] r = refl
  steps-builtins (c ∷ cs) r = steps-builtins cs (step c r) ∙ step-builtins c r

  new_registry-IsRouted : (made : Builtins A) → IsRouted (new_registry A net made)
  unfolding lookup
  new_registry-IsRouted made = record { paired = λ t. refl }

  -- After any routings, removals and closings, `Get` answers for a type with its built-in adapter;
  -- failing one, with the client of the connection that is the type's by the calls that name it,
  -- taken one by one: an active route that can be dialled replaces it, one that cannot leaves it,
  -- any other status, a removal and a closing drop it; failing both, with an error.
  pub get-steps :
      (made : Builtins A) (cs : List Call) (t : Bytes)
      → get A net t (steps cs (new_registry A net made))
        ≡ builtin_or A net
            (external_of A net t (client_of (routed t cs none)))
            (lookup t (register_builtins A net made))
  unfolding get lookup
  get-steps made cs t =
      let r = new_registry A net made in
      let g = (steps-IsRouted cs r (new_registry-IsRouted made)).paired t in
      ap (λ x. builtin_or A net (external_of A net t x) (lookup t (steps cs r).builtins))
        (g ∙ ap client_of (steps-routed t cs r))
      ∙ ap (λ x. builtin_or A net (external_of A net t (client_of (routed t cs none))) (lookup t x))
          (steps-builtins cs r)
