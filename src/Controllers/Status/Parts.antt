-- ===== src/Controllers/Status/Parts.antt =====
-- Which nodes and resources of the read tree count as online and as started.
use cortx_ha.Prelude.{◌≡◌, ◌≢◌, true, List, [], ◌∷◌, All, arith, eq_iff, ◌↔◌}
use cortx_ha.Controllers.Status.{NodeXml, ResourceXml, to_online, place, is_started}

-- The node is online, not in standby, and nothing else keeps resources from it.
abbrev pub IsUp : NodeXml → Type 0
IsUp n =
    (n.online ≡ "true")
    × (n.standby ≢ "true")
    × (n.standby_onfail ≢ "true")
    × (n.maintenance ≢ "true")
    × (n.pending ≢ "true")
    × (n.shutdown ≢ "true")

pub place-IsUp : (n : NodeXml) → (place n ≡ to_online) ↔ IsUp n
unfolding place
place-IsUp n = (
  λ h. ground (
    arith,
    eq_iff n.online "false",
    eq_iff n.online "true",
    eq_iff n.standby "true",
    eq_iff n.standby_onfail "true",
    eq_iff n.maintenance "true",
    eq_iff n.pending "true",
    eq_iff n.shutdown "true",
    eq_iff "true" "false",
  ),
  λ h. ground (
    arith,
    eq_iff n.online "false",
    eq_iff n.online "true",
    eq_iff n.standby "true",
    eq_iff n.standby_onfail "true",
    eq_iff n.maintenance "true",
    eq_iff n.pending "true",
    eq_iff n.shutdown "true",
    eq_iff "true" "false",
  ),
)

-- The resource is started and has no fault.
abbrev pub IsHealthy : ResourceXml → Type 0
IsHealthy r =
    (r.active ≢ "false")
    × (r.orphaned ≢ "true")
    × (r.blocked ≢ "true")
    × (r.failed ≢ "true")
    × (r.role ≡ "Started")

pub is_started-IsHealthy : (r : ResourceXml) → (is_started r ≡ true) ↔ IsHealthy r
unfolding is_started
is_started-IsHealthy r = (
  λ h. ground (
    arith,
    eq_iff r.active "false",
    eq_iff r.orphaned "true",
    eq_iff r.blocked "true",
    eq_iff r.failed "true",
    eq_iff r.role "Started",
  ),
  λ h. ground (
    arith,
    eq_iff r.active "false",
    eq_iff r.orphaned "true",
    eq_iff r.blocked "true",
    eq_iff r.failed "true",
    eq_iff r.role "Started",
  ),
)

-- Both ways along a list.
pub All-iff :
    {A : Type 0} {P Q : A → Type 0} (xs : List A) → ((x : A) → P x ↔ Q x) → All P xs ↔ All Q xs
All-iff [] each = (λ h. h, λ h. h)
All-iff (x ∷ xs) each =
    let rest = All-iff xs each in
    (λ h. ((each x).0 h.0, rest.0 h.1), λ h. ((each x).1 h.0, rest.1 h.1))
