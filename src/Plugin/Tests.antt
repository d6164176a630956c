-- ===== src/Plugin/Tests.antt =====
-- A plugin whose probes fail three times, and the theorem at it.
use n.Base.{◌≡◌, refl, true, false, List, [], ◌∷◌, Bool, codes}
use n.Plugin.Health.{degraded, record_plugin_health, probed, failed_since, status_after, probed_lem}

abbrev probes : List Bool
probes = false ∷ false ∷ false ∷ true ∷ []

three_failures :
    probed probes (record { status = codes "registered"; failures = 0 })
    ≡ record { status = degraded; failures = 3 }
unfolding probed record_plugin_health
three_failures = refl

probed_lem_example :
    ((probed probes (record { status = codes "registered"; failures = 0 })).status
      ≡ status_after probes (codes "registered"))
    × ((probed probes (record { status = codes "registered"; failures = 0 })).failures
        ≡ failed_since probes)
probed_lem_example = probed_lem probes (codes "registered")
