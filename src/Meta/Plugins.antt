-- ===== src/Meta/Plugins.antt =====
-- internal/app/app.go: `RegisterPlugin`.
pub mod Registration
use n.Base.{
  ℕ, ◌≡◌, ◌↔◌, ◌⊎◌, refl, Bool, true, false, not, ◌&&◌, ◌||◌, [], Option, none, some, Bytes, codes,
  ◌++◌, eq, is_empty, trim_space, if◌then◌else◌, arith,
}
use n.Job.Backend.{Error, message, wrap, Result, ok, err}
use n.Meta.Types.{PluginDefinition, MetaService}
use n.Meta.App.{named_as}

abbrev pub lacks_names : PluginDefinition → Bool
lacks_names p = is_empty p.plugin_type || (is_empty p.name || is_empty p.version)

-- `if p.Protocol == "" { p.Protocol = "grpc" }`
abbrev pub protocol_of : PluginDefinition → Bytes
protocol_of p = if is_empty p.protocol then codes "grpc" else p.protocol

abbrev pub lacks_tenant : PluginDefinition → Bool
lacks_tenant p = not p.is_global && is_empty (trim_space p.tenant_id)

-- The plugin as it goes to the repository.
abbrev pub validated : ℕ → PluginDefinition → PluginDefinition
validated now p = record {
  plugin_type = p.plugin_type;
  name = p.name;
  version = p.version;
  author = p.author;
  endpoint = p.endpoint;
  protocol = protocol_of p;
  status = codes "validated";
  tenant_id = p.tenant_id;
  is_global = p.is_global;
  created_at = now;
}

module _ (svc : MetaService) where
  abbrev pub Answer : Type 0
  Answer = Result Bytes × svc.repo.State

  -- Behind `net.SplitHostPort`.
  abbrev with_endpoint : ℕ → PluginDefinition → svc.repo.State → Option Error → Answer
  with_endpoint now p s (some e) = (err (wrap (codes "plugin endpoint must be host:port") e), s)
  with_endpoint now p s none =
      if lacks_tenant p
      then (err (message (codes "tenant_id is required for a non-global plugin")), s)
      else named_as (codes "register plugin") (svc.repo.register_plugin (validated now p) s)

  -- `RegisterPlugin`.
  unfoldable pub register_plugin : ℕ → PluginDefinition → svc.repo.State → Answer
  register_plugin now p s =
      if lacks_names p
      then (err (message (codes "plugin_type, name, and version are required")), s)
      else if not (eq (protocol_of p) (codes "grpc"))
      then (
        err (message (codes "unsupported plugin protocol " ++ svc.libraries.quote (protocol_of p))),
        s,
      )
      else with_endpoint now p s (svc.libraries.split_host_port p.endpoint)

  -- A registration that the repository gets.
  pub record Registrable (p : PluginDefinition) : Type 0 where
    pub has_type : is_empty p.plugin_type ≡ false
    pub has_name : is_empty p.name ≡ false
    pub has_version : is_empty p.version ≡ false
    pub is_grpc : p.protocol ≡ [] ⊎ p.protocol ≡ codes "grpc"
    pub has_endpoint : svc.libraries.split_host_port p.endpoint ≡ none
    pub has_tenant : p.is_global ≡ true ⊎ is_empty (trim_space p.tenant_id) ≡ false
