-- ===== src/Plugin/Health.antt =====
-- postgres.go, `RecordPluginHealth`: the new status and count of failures of a plugin, as the code
-- computes them between its SELECT and its UPDATE; and manager.go, when a route is published.
-- `equal_fold` is `strings.EqualFold`. The failures counted are an int that does not reach 2 ^ 63.
use n.Base.{
  ℕ, suc, ◌+◌, ◌≡◌, refl, Bool, true, false, not, ◌||◌, List, [], ◌∷◌, Option, none, some, Bytes,
  codes, eq, ltb, leb, arith, if◌then◌else◌,
}

-- The columns `status` and `consecutive_failures`.
pub record Health : Type 0 where
  pub status : Bytes
  pub failures : ℕ

abbrev pub active : Bytes
active = codes "active"

abbrev pub degraded : Bytes
degraded = codes "degraded"

unfoldable pub advance : Bool → Health → Health
advance true h = record { status = active; failures = 0 }
advance false h = record {
  status = if ltb (h.failures + 1) 3 then h.status else degraded;
  failures = h.failures + 1;
}

-- `RecordPluginHealth` where the database takes its statements: what it returns, and the new row.
unfoldable pub record_plugin_health : Bool → Health → (Bytes × Bool) × Health
unfolding advance
record_plugin_health healthy h =
    let new = advance healthy h in ((new.status, not (eq new.status h.status)), new)

pub record Plugin : Type 0 where
  pub plugin_id : Bytes
  pub name : Bytes
  pub plugin_type : Bytes
  pub endpoint : Bytes

pub record Route : Type 0 where
  pub plugin_id : Bytes
  pub adapter_type : Bytes
  pub endpoint : Bytes
  pub status : Bytes

module _ (equal_fold : Bytes → Bytes → Bool) where
  -- `publishRoute`.
  abbrev publish_route : Plugin → Bytes → Option Route
  publish_route p status =
      if not (equal_fold p.plugin_type (codes "DB_ADAPTER"))
      then none
      else some record {
        plugin_id = p.plugin_id;
        adapter_type = p.name;
        endpoint = p.endpoint;
        status = status;
      }

  abbrev route_of : Plugin → Bytes × Bool → Option Route
  route_of p (status, changed) =
      if changed || eq status active then publish_route p status else none

  -- The body of the loop of `check`, for a plugin and what its probe has found.
  unfoldable pub check_plugin : Plugin → Bool → Health → Option Route × Health
  unfolding record_plugin_health
  check_plugin p healthy h =
      let (reply, new) = record_plugin_health healthy h in (route_of p reply, new)

-- The probes of a plugin, the last one first.
unfoldable pub probed : List Bool → Health → Health
probed [] h = h
probed (healthy ∷ before) h = (record_plugin_health healthy (probed before h)).1

-- The probes that have failed since the last success.
unfoldable pub failed_since : List Bool → ℕ
failed_since [] = 0
failed_since (true ∷ before) = 0
failed_since (false ∷ before) = suc (failed_since before)

unfoldable pub any_success : List Bool → Bool
any_success [] = false
any_success (healthy ∷ before) = healthy || any_success before

abbrev pub status_after : List Bool → Bytes → Bytes
status_after probes initial =
    if leb 3 (failed_since probes) then degraded else if any_success probes then active else initial

abbrev HasRun : List Bool → Bytes → Health → Type 0
HasRun probes initial h =
    (h.status ≡ status_after probes initial) × (h.failures ≡ failed_since probes)

advance-HasRun :
    (healthy : Bool) (before : List Bool) (initial : Bytes) (h : Health)
    → HasRun before initial h
    → HasRun (healthy ∷ before) initial (record_plugin_health healthy h).1
unfolding record_plugin_health advance failed_since any_success
advance-HasRun true before initial h (s, f) = (refl, refl)
advance-HasRun false before initial h (s, f) = (ground arith, omega arith)

-- Whatever the probes, a plugin that had no failures counted is degraded exactly by three failures
-- in a row at the end; else it is active if a probe has succeeded, and keeps its first status if
-- none has. The count is that of the failures since the last success.
pub probed_lem :
    (probes : List Bool) (initial : Bytes)
    → ((probed probes (record { status = initial; failures = 0 })).status
        ≡ status_after probes initial)
      × ((probed probes (record { status = initial; failures = 0 })).failures ≡ failed_since probes)
unfolding probed failed_since any_success
probed_lem [] initial = (refl, refl)
probed_lem (healthy ∷ before) initial =
    advance-HasRun healthy before initial
      (probed before (record { status = initial; failures = 0 })) (probed_lem before initial)
