-- ===== src/Controllers/Status/Lists.antt =====
-- How long the lists of the cluster status are when the nodes and the resources are in them.
use mathlib.Core.List.{◌++◌ as ◌+++◌}
use cortx_ha.Prelude.{
  ℕ, suc, ◌+◌, ◌≤◌, String, ◌≡◌, refl, Bool, true, false, List, [], ◌∷◌, length, All, arith,
}
use cortx_ha.Controllers.Status.{
  NodeXml, ResourceXml, ClusterStatus, Place, to_offline, to_unhealthy, to_standby, to_online,
  place, put_node, put_nodes, is_started, put_service, put_services,
}

-- What `put_nodes` and `put_services` leave alone.
pub record SameRest (s s' : ClusterStatus) : Type 0 where
  pub configured : s'.nodes_configured ≡ s.nodes_configured
  pub counted : s'.count ≡ s.count
  pub unhealthy : s'.services_unhealthy ≡ s.services_unhealthy
  pub output : s'.output ≡ s.output

pub put_node-SameRest :
    (p : Place) (name : String) (s : ClusterStatus) → SameRest s (put_node p name s)
unfolding put_node
put_node-SameRest to_offline name s = ground arith
put_node-SameRest to_unhealthy name s = ground arith
put_node-SameRest to_standby name s = ground arith
put_node-SameRest to_online name s = ground arith

pub SameRest-trans : {s s' s'' : ClusterStatus} → SameRest s s' → SameRest s' s'' → SameRest s s''
SameRest-trans a b = ground arith

pub put_nodes-SameRest : (ns : List NodeXml) (s : ClusterStatus) → SameRest s (put_nodes ns s)
unfolding put_nodes
put_nodes-SameRest [] s = ground arith
put_nodes-SameRest (n ∷ ns) s =
    SameRest-trans (put_node-SameRest (place n) n.name s)
      (put_nodes-SameRest ns (put_node (place n) n.name s))

pub length-snoc : (l : List String) (x : String) → length (l +++ x ∷ []) ≡ suc (length l)
length-snoc [] x = omega arith
length-snoc (y ∷ l) x = omega (arith, length-snoc l x)

abbrev pub size : ClusterStatus → ℕ
size s = length s.offline + length s.unhealthy + length s.standby + length s.online

-- One more node is in one of the lists.
pub put_node-size :
    (p : Place) (name : String) (s : ClusterStatus) → size (put_node p name s) ≡ suc (size s)
unfolding put_node
put_node-size to_offline name s = omega (arith, length-snoc s.offline name)
put_node-size to_unhealthy name s = omega (arith, length-snoc s.unhealthy name)
put_node-size to_standby name s = omega (arith, length-snoc s.standby name)
put_node-size to_online name s = omega (arith, length-snoc s.online name)

-- Every node that is read goes into exactly one of the lists.
pub put_nodes-size :
    (ns : List NodeXml) (s : ClusterStatus) → size (put_nodes ns s) ≡ size s + length ns
unfolding put_nodes
put_nodes-size [] s = omega arith
put_nodes-size (n ∷ ns) s =
    omega (arith, put_node-size (place n) n.name s, put_nodes-size ns (put_node (place n) n.name s))

pub put_node-online :
    (p : Place) (name : String) (s : ClusterStatus)
    → (length (put_node p name s).online ≤ suc (length s.online))
      × (length (put_node p name s).online ≡ suc (length s.online) → p ≡ to_online)
      × (p ≡ to_online → length (put_node p name s).online ≡ suc (length s.online))
unfolding put_node
put_node-online to_offline name s = (omega arith, λ h. absurd (omega arith), λ h. cc)
put_node-online to_unhealthy name s = (omega arith, λ h. absurd (omega arith), λ h. cc)
put_node-online to_standby name s = (omega arith, λ h. absurd (omega arith), λ h. cc)
put_node-online to_online name s =
    (omega (arith, length-snoc s.online name), λ h. refl, λ h. length-snoc s.online name)

pub put_nodes-online :
    (ns : List NodeXml) (s : ClusterStatus)
    → (length (put_nodes ns s).online ≤ length s.online + length ns)
      × (length (put_nodes ns s).online ≡ length s.online + length ns
          → All (λ n. place n ≡ to_online) ns)
      × (All (λ n. place n ≡ to_online) ns
          → length (put_nodes ns s).online ≡ length s.online + length ns)
unfolding put_nodes
put_nodes-online [] s = (omega arith, λ h. _, λ h. omega arith)
put_nodes-online (n ∷ ns) s =
    let (le, only, all) = put_node-online (place n) n.name s in
    let (le', only', all') = put_nodes-online ns (put_node (place n) n.name s) in
    (
      omega arith,
      λ h. (only (omega arith), only' (omega arith)),
      λ h. omega (arith, all h.0, all' h.1),
    )

-- What `put_services` leaves alone, and when no service is unhealthy.
pub record SameNodes (s s' : ClusterStatus) : Type 0 where
  pub configured : s'.nodes_configured ≡ s.nodes_configured
  pub counted : s'.count ≡ s.count
  pub offline : s'.offline ≡ s.offline
  pub standby : s'.standby ≡ s.standby
  pub online : s'.online ≡ s.online

pub put_service-SameNodes :
    (b : Bool) (id : String) (s : ClusterStatus) → SameNodes s (put_service b id s)
unfolding put_service
put_service-SameNodes true id s = ground arith
put_service-SameNodes false id s = ground arith

pub SameNodes-trans :
    {s s' s'' : ClusterStatus} → SameNodes s s' → SameNodes s' s'' → SameNodes s s''
SameNodes-trans a b = ground arith

pub put_services-SameNodes :
    (rs : List ResourceXml) (s : ClusterStatus) → SameNodes s (put_services rs s)
unfolding put_services
put_services-SameNodes [] s = ground arith
put_services-SameNodes (r ∷ rs) s =
    SameNodes-trans (put_service-SameNodes (is_started r) r.id s)
      (put_services-SameNodes rs (put_service (is_started r) r.id s))

pub put_service-unhealthy :
    (b : Bool) (id : String) (s : ClusterStatus)
    → (length s.services_unhealthy ≤ length (put_service b id s).services_unhealthy)
      × (length (put_service b id s).services_unhealthy ≡ length s.services_unhealthy → b ≡ true)
      × (b ≡ true → length (put_service b id s).services_unhealthy ≡ length s.services_unhealthy)
unfolding put_service
put_service-unhealthy true id s = (omega arith, λ h. refl, λ h. refl)
put_service-unhealthy false id s =
    let longer = length-snoc s.services_unhealthy id in
    (omega (arith, longer), λ h. absurd (omega (arith, longer)), λ h. cc)

pub put_services-unhealthy :
    (rs : List ResourceXml) (s : ClusterStatus)
    → (length s.services_unhealthy ≤ length (put_services rs s).services_unhealthy)
      × (length (put_services rs s).services_unhealthy ≡ length s.services_unhealthy
          → All (λ r. is_started r ≡ true) rs)
      × (All (λ r. is_started r ≡ true) rs
          → length (put_services rs s).services_unhealthy ≡ length s.services_unhealthy)
unfolding put_services
put_services-unhealthy [] s = (omega arith, λ h. _, λ h. omega arith)
put_services-unhealthy (r ∷ rs) s =
    let (le, only, all) = put_service-unhealthy (is_started r) r.id s in
    let (le', only', all') = put_services-unhealthy rs (put_service (is_started r) r.id s) in
    (
      omega arith,
      λ h. (only (omega arith), only' (omega arith)),
      λ h. omega (arith, all h.0, all' h.1),
    )
