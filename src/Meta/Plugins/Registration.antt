-- ===== src/Meta/Plugins/Registration.antt =====
-- internal/app/app.go: which plugins `RegisterPlugin` hands to the repository.
use n.Base.{
  ℕ, ◌≡◌, ◌⊎◌, ◌∙◌, inl, inr, refl, ◌++◌, Bool, true, false, Bytes, [], ◌∷◌, Option, none, some,
  codes, eq, eq_iff, is_empty, trim_space, Bool-cases, arith,
}
use n.Job.Backend.{Error, message, err}
use n.Meta.Types.{PluginDefinition, MetaService}
use n.Meta.App.{named_as}
use n.Meta.Plugins.{
  lacks_names, protocol_of, lacks_tenant, validated, with_endpoint, register_plugin, Registrable,
}

-- A plugin as it is registered: its own names, author, endpoint and tenant, over grpc, with the
-- status `validated` and the time `now`.
abbrev pub registered : ℕ → PluginDefinition → PluginDefinition
registered now p = record {
  plugin_type = p.plugin_type;
  name = p.name;
  version = p.version;
  author = p.author;
  endpoint = p.endpoint;
  protocol = codes "grpc";
  status = codes "validated";
  tenant_id = p.tenant_id;
  is_global = p.is_global;
  created_at = now;
}

module _ (svc : MetaService) where
  -- What `RegisterPlugin` does with a plugin: it is refused, or goes to the repository.
  pub data Outcome (now : ℕ) (p : PluginDefinition) (s : svc.repo.State) : Type 0 where
    refused :
        {e : Error}
        → register_plugin svc now p s ≡ (err e, s)
        → ¬ Registrable svc p
        → Outcome now p s
    handed_on :
        Registrable svc p
        → register_plugin svc now p s
          ≡ named_as (codes "register plugin") (svc.repo.register_plugin (registered now p) s)
        → Outcome now p s

  is_empty-nil : (xs : Bytes) → is_empty xs ≡ true → xs ≡ []
  is_empty-nil [] h = refl
  is_empty-nil (x ∷ xs) h = cc h

  -- The protocol that is checked is grpc exactly for a plugin that names it or none.
  protocol_of-grpc :
      (p : PluginDefinition)
      → protocol_of p ≡ codes "grpc"
      → p.protocol ≡ [] ⊎ p.protocol ≡ codes "grpc"
  protocol_of-grpc p h = elim (Bool-cases (is_empty p.protocol)) [
    | inl e ↦ inl (is_empty-nil p.protocol e)
    | inr e ↦ inr (rw e at h)
  ]

  grpc-protocol_of :
      (p : PluginDefinition)
      → p.protocol ≡ [] ⊎ p.protocol ≡ codes "grpc"
      → protocol_of p ≡ codes "grpc"
  grpc-protocol_of p (inl e) = rw e refl
  grpc-protocol_of p (inr e) = rw e refl

  validated-registered :
      (now : ℕ) (p : PluginDefinition)
      → protocol_of p ≡ codes "grpc"
      → validated now p ≡ registered now p
  validated-registered now p h = rw h refl

  lacks_tenant-false :
      (p : PluginDefinition)
      → lacks_tenant p ≡ false
      → p.is_global ≡ true ⊎ is_empty (trim_space p.tenant_id) ≡ false
  lacks_tenant-false p h = ground (arith, h)

  lacks_tenant-true : (p : PluginDefinition) → lacks_tenant p ≡ true → ¬ Registrable svc p
  lacks_tenant-true p h r = let t = r.has_tenant in ground (arith, h, t)

  lacks_names-true : (p : PluginDefinition) → lacks_names p ≡ true → ¬ Registrable svc p
  lacks_names-true p h r =
      let a = r.has_type in
      let b = r.has_name in let c = r.has_version in ground (arith, h, a, b, c)

  with_endpoint-Outcome :
      (now : ℕ) (p : PluginDefinition) (s : svc.repo.State) (lacks : Bool) (found : Option Error)
      → lacks_names p ≡ false
      → protocol_of p ≡ codes "grpc"
      → lacks_tenant p ≡ lacks
      → svc.libraries.split_host_port p.endpoint ≡ found
      → register_plugin svc now p s ≡ with_endpoint svc now p s found
      → Outcome now p s
  with_endpoint-Outcome now p s lacks (some e) n g t x h =
      refused h (λ r. let q = r.has_endpoint in cc (q, x))
  with_endpoint-Outcome now p s true none n g t x h =
      let q = (rw t at h) in refused q (lacks_tenant-true p t)
  with_endpoint-Outcome now p s false none n g t x h =
      handed_on
        (record {
          has_type = ground (arith, n);
          has_name = ground (arith, n);
          has_version = ground (arith, n);
          is_grpc = protocol_of-grpc p g;
          has_endpoint = x;
          has_tenant = lacks_tenant-false p t;
        })
        (h ∙ rw t (rw (validated-registered now p g) refl))

  -- A plugin goes to the repository, with the protocol grpc, the status `validated` and the time of
  -- the call, exactly if it has a type, a name and a version, its protocol is grpc or not given, its
  -- endpoint is host:port, and it is global or has a tenant; any other is refused and leaves the
  -- repository as it is.
  pub register_plugin-Outcome :
      (now : ℕ) (p : PluginDefinition) (s : svc.repo.State) → Outcome now p s
  unfolding register_plugin
  register_plugin-Outcome now p s = elim (Bool-cases (lacks_names p)) [
    | inl n ↦
        refused {e = message (codes "plugin_type, name, and version are required")} (rw n refl)
          (lacks_names-true p n)
    | inr n ↦ elim (Bool-cases (eq (protocol_of p) (codes "grpc"))) [
      | inl g ↦ with_endpoint-Outcome now p s _ _ n ((eq_iff _ _).0 g) refl refl (rw (n, g) refl)
      | inr g ↦
          refused
            {e = message
              (codes "unsupported plugin protocol " ++ svc.libraries.quote (protocol_of p))}
            (rw (n, g) refl)
            (λ r. let q = (eq_iff _ _).1 (grpc-protocol_of p r.is_grpc) in cc (q, g))
    ]
  ]
