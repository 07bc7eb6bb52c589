-- ===== src/Pcs/Client/Shutdown.antt =====
-- When the client shuts a node down and when it reports the cluster in maintenance.
use cortx_ha.Prelude.{
  ℕ, ◌<◌, String, ◌≡◌, refl, sym, ap, ◌∙◌, Bool, true, false, if◌then◌else◌, Option, none, some,
  arith, ◌==◌, List, [], ◌∷◌, ◌≢◌, All, eq_iff, ◌↔◌, Bool-cases, inl, inr,
}
use cortx_ha.Prelude.{Result, ok, raise}
use cortx_ha.Prelude.Acting.{Act, for_each, continue-eq-ok, pure-eq-ok}
use cortx_ha.Pcs.Waiter.{check}
use cortx_ha.Pcs.Waiter.Timing.{Outcome, met, failed, timed_out, wait-Ends}
use cortx_ha.Pcs.Client.{
  Node, Resource, online_of, is_only, get_online_nodes, Connector, Waiting, continue_waiting,
  all_stopped, has_no_resources, waiter, wait_for, is_last_online_node, power_off, shutdown_node,
  disable_stonith, standby_all, cluster_maintenance, on_timeout, on_any,
}

abbrev pub Stopped : List Resource → Type 0
Stopped rs = All (λ (r : Resource). r.active ≡ false) rs

all_stopped-Stopped : (rs : List Resource) → all_stopped rs ≡ true → Stopped rs
unfolding all_stopped
all_stopped-Stopped [] h = _
all_stopped-Stopped (r ∷ rs) h = (ground arith, all_stopped-Stopped rs (ground arith))

-- the first node of the name has no resources running
pub data Idle (node_name : String) : List Node → Type 0 where
  first_of :
      {n : Node} {ns : List Node}
      → n.name ≡ node_name
      → n.resources_running ≡ 0
      → Idle node_name (n ∷ ns)
  behind :
      {n : Node} {ns : List Node} → n.name ≢ node_name → Idle node_name ns → Idle node_name (n ∷ ns)

has_no_resources-Idle :
    (node_name : String) (ns : List Node) → has_no_resources node_name ns ≡ true → Idle node_name ns
unfolding has_no_resources
has_no_resources-Idle node_name (n ∷ ns) h = elim (Bool-cases (n.name == node_name)) [
  | inl e ↦ first_of ((eq_iff n.name node_name).0 e) (ground arith)
  | inr e ↦
      behind (λ same. ground (arith, eq_iff n.name node_name))
        (has_no_resources-Idle node_name ns (ground arith))
]
has_no_resources-Idle node_name [] h = ground arith

-- the node of the name is the only one online
pub data IsLast (node_name : String) : List Node → Type 0 where
  this :
      {n : Node} {ns : List Node}
      → n.online ≡ true
      → n.name ≡ node_name
      → All (λ (m : Node). m.online ≡ false) ns
      → IsLast node_name (n ∷ ns)
  after :
      {n : Node} {ns : List Node}
      → n.online ≡ false
      → IsLast node_name ns
      → IsLast node_name (n ∷ ns)

none_online : (ns : List Node) → (online_of ns ≡ []) ↔ All (λ (m : Node). m.online ≡ false) ns
unfolding online_of
none_online [] = (λ h. _, λ h. refl)
none_online (n ∷ ns) =
    let rest = none_online ns in
    (λ h. (ground arith, rest.0 (ground arith)), λ h. rw (h.0, rest.1 h.1) refl)

is_only_one :
    (node_name : String) (n : Node) (l : List Node)
    → is_only node_name (n ∷ l) ≡ true
    → (n.name ≡ node_name) × (l ≡ [])
unfolding is_only
is_only_one node_name n [] h = ((eq_iff n.name node_name).0 h, refl)
is_only_one node_name n (m ∷ l) h = ground arith

is_only-IsLast :
    (node_name : String) (ns : List Node)
    → is_only node_name (online_of ns) ≡ true
    → IsLast node_name ns
unfolding is_only online_of
is_only-IsLast node_name [] h = ground arith
is_only-IsLast node_name (n ∷ ns) h = elim (Bool-cases n.online) [
  | inl on ↦
      let (name, rest) =
        is_only_one node_name n (online_of ns) (
          ap (λ b. is_only node_name (if b then n ∷ online_of ns else online_of ns)) (sym on)
          ∙ h) in
      this on name ((none_online ns).0 rest)
  | inr off ↦ after off (
      is_only-IsLast node_name ns
        (ap (λ b. is_only node_name (if b then n ∷ online_of ns else online_of ns)) (sym off) ∙ h))
]

IsLast-is_only :
    (node_name : String) (ns : List Node)
    → IsLast node_name ns
    → is_only node_name (online_of ns) ≡ true
unfolding is_only online_of
IsLast-is_only node_name [] last = elim last [ ]
IsLast-is_only node_name (n ∷ ns) (this on name rest) =
    rw (on, (none_online ns).1 rest) ((eq_iff n.name node_name).1 name)
IsLast-is_only node_name (n ∷ ns) (after off rest) = rw off (IsLast-is_only node_name ns rest)

module _ {W : Type 0} where
  continue_waiting-eq-ok :
      {A B : Type 0} (o : Option (W × Result A)) (f : A → Waiting W B) {w' : W} {b : B}
      → continue_waiting o f ≡ some (w', ok b)
      → (w : W) × (a : A) × (o ≡ some (w, ok a)) × (f a w ≡ some (w', ok b))
  continue_waiting-eq-ok none f same = cc
  continue_waiting-eq-ok (some (w, ok a)) f same = (w, a, refl, same)
  continue_waiting-eq-ok (some (w, raise e)) f same = cc

  -- the last look of a wait that succeeded
  pub record Seen {D : Type 0} (provider_fn : Act W D) (P : D → Type 0) (w' : W) : Type 0 where
    pub before : W
    pub found : D
    pub look : provider_fn before ≡ (w', ok found)
    pub holds : P found

  Seen-map :
      {D : Type 0} {P Q : D → Type 0} (provider_fn : Act W D) {w : W}
      → ((d : D) → P d → Q d)
      → Seen provider_fn P w
      → Seen provider_fn Q w
  Seen-map provider_fn f seen = record {
    before = seen.before;
    found = seen.found;
    look = seen.look;
    holds = f seen.found seen.holds;
  }

module _ {W : Type 0} (sleep : ℕ → W → W) (connector : Connector W) where
  check-Seen :
      {D : Type 0} (provider_fn : Act W D) (predicate : D → Bool) (limit : ℕ) (w w2 w' : W)
      → check (waiter sleep connector provider_fn predicate limit) w ≡ (w2, ok true)
      → w2 ≡ w'
      → Seen provider_fn (λ d. predicate d ≡ true) w'
  check-Seen provider_fn predicate limit w w2 w' c e =
      let (v, found, look, last) = continue-eq-ok (provider_fn w) _ c in
      let (v_eq, holds) = pure-eq-ok v w2 (predicate found) true last in
      record {
        before = w;
        found = found;
        look = look ∙ ap (λ u. (u, ok found)) (v_eq ∙ e);
        holds = holds;
      }

  Outcome-Seen :
      {D : Type 0} (provider_fn : Act W D) (predicate : D → Bool) (limit : ℕ) (w : W)
      (r : W × Result (Unit {0})) {w' : W}
      → Outcome sleep (waiter sleep connector provider_fn predicate limit) limit w r
      → r ≡ (w', ok _)
      → Seen provider_fn (λ d. predicate d ≡ true) w'
  Outcome-Seen provider_fn predicate limit w r {w'} (met {w1 = w1} {w2 = w2} p l c) e =
      check-Seen provider_fn predicate limit w1 w2 w' c (ap (λ (q : W × Result (Unit {0})). q.0) e)
  Outcome-Seen provider_fn predicate limit w r (failed p l c) e = cc
  Outcome-Seen provider_fn predicate limit w r (timed_out p l m c) e = cc

  wait_for-Seen :
      {D : Type 0} (provider_fn : Act W D) (predicate : D → Bool) (limit : ℕ) (w : W) {w' : W}
      → 0 < limit
      → wait_for sleep connector provider_fn predicate limit w ≡ some (w', ok _)
      → Seen provider_fn (λ d. predicate d ≡ true) w'
  unfolding wait_for
  wait_for-Seen provider_fn predicate limit w pos same =
      let x = waiter sleep connector provider_fn predicate limit in
      let (r, ends, out) = wait-Ends sleep x w (omega arith) pos in
      Outcome-Seen provider_fn predicate limit w r out (cc)

  power_off-eq :
      (node_name : String) (last_node : Bool)
      → power_off sleep connector node_name last_node ≡ (
          if last_node
          then connector.manual_shutdown_node node_name
          else connector.shutdown_node node_name)
  unfolding power_off
  power_off-eq node_name true = refl
  power_off-eq node_name false = refl

  -- what was seen, and done since, when a node has been shut down
  pub record Drained (node_name : String) (w w' : W) : Type 0 where
    pub last_node : Bool
    pub looked : W
    pub idle : W
    pub nodes : List Node
    pub first_look : connector.get_nodes w ≡ (looked, ok nodes)
    pub was_last : (last_node ≡ true) ↔ IsLast node_name nodes
    pub seen : Seen connector.get_nodes (Idle node_name) idle
    pub shut :
        (if last_node
            then connector.manual_shutdown_node node_name
            else connector.shutdown_node node_name)
          idle
        ≡ (w', ok _)

  is_last_online_node-IsLast :
      (node_name : String) (w w1 : W) (last_node : Bool)
      → is_last_online_node sleep connector node_name w ≡ (w1, ok last_node)
      → (nodes : List Node) × (connector.get_nodes w ≡ (w1, ok nodes))
        × ((last_node ≡ true) ↔ IsLast node_name nodes)
  unfolding is_last_online_node get_online_nodes
  is_last_online_node-IsLast node_name w w1 last_node same =
      let (v, online, looked, last) = continue-eq-ok (get_online_nodes sleep connector w) _ same in
      let (v', nodes, found, e) = continue-eq-ok (connector.get_nodes w) _ looked in
      let (ve, online_eq) = pure-eq-ok v' v (online_of nodes) online e in
      let (we, only) = pure-eq-ok v w1 (is_only node_name online) last_node last in
      let decided : is_only node_name (online_of nodes) ≡ last_node =
        ap (is_only node_name) online_eq ∙ only in
      (
        nodes,
        found ∙ ap (λ u. (u, ok nodes)) (ve ∙ we),
        (
          λ h. is_only-IsLast node_name nodes (decided ∙ h),
          λ h. sym decided ∙ IsLast-is_only node_name nodes h,
        ),
      )

  -- Where shutdown_node succeeds, with a timeout that is not 0, the last thing before the node was
  -- shut down was a look that found no resources running on the first node of its name; and it was
  -- shut down by IPMI where the first look of all found it the only node online, and by Pacemaker
  -- where that look did not.
  pub shutdown_node-Drained :
      (node_name : String) (limit : ℕ) (w : W) {w' : W}
      → 0 < limit
      → shutdown_node sleep connector node_name limit w ≡ some (w', ok _)
      → Drained node_name w w'
  unfolding shutdown_node
  shutdown_node-Drained node_name limit w pos same =
      let (w1, last_node, was_last, s1) =
        continue_waiting-eq-ok (some (is_last_online_node sleep connector node_name w)) _ same in
      let (w2, _, _, s2) =
        continue_waiting-eq-ok (some (connector.ensure_shutdown_possible node_name w1)) _ s1 in
      let (w3, _, _, s3) =
        continue_waiting-eq-ok (some (connector.standby_node node_name w2)) _ s2 in
      let (w4, _, waited, s4) =
        continue_waiting-eq-ok
          (wait_for sleep connector connector.get_nodes (has_no_resources node_name) limit w3) _
          s3 in
      let (nodes, first_look, last) = is_last_online_node-IsLast node_name w w1 last_node (cc) in
      record {
        last_node = last_node;
        looked = w1;
        idle = w4;
        nodes = nodes;
        first_look = first_look;
        was_last = last;
        seen =
            Seen-map connector.get_nodes (has_no_resources-Idle node_name)
              (wait_for-Seen connector.get_nodes (has_no_resources node_name) limit w3 pos waited);
        shut = sym (ap (λ (m : Act W (Unit {0})). m w4) (power_off-eq node_name last_node)) ∙ cc;
      }

  on_timeout-eq-ok :
      (o : Option (W × Result (Unit {0}))) {w : W}
      → on_timeout o ≡ some (w, ok _)
      → o ≡ some (w, ok _)
  on_timeout-eq-ok none e = e
  on_timeout-eq-ok (some (v, ok a)) e = e
  on_timeout-eq-ok (some (v, raise x)) e = cc

  on_any-eq-ok :
      (o : Option (W × Result (Unit {0}))) {w : W} → on_any o ≡ some (w, ok _) → o ≡ some (w, ok _)
  on_any-eq-ok none e = e
  on_any-eq-ok (some (v, ok a)) e = e
  on_any-eq-ok (some (v, raise x)) e = cc

  disable_stonith-Seen :
      (limit : ℕ) (w : W) {w' : W}
      → 0 < limit
      → disable_stonith sleep connector limit w ≡ some (w', ok _)
      → Seen connector.get_stonith_resources Stopped w'
  unfolding disable_stonith
  disable_stonith-Seen limit w pos same =
      let (w1, resources, _, s1) =
        continue_waiting-eq-ok (some (connector.get_stonith_resources w)) _ same in
      let (w2, _, _, s2) =
        continue_waiting-eq-ok (some (for_each resources connector.disable_resource w1)) _ s1 in
      Seen-map connector.get_stonith_resources all_stopped-Stopped
        (wait_for-Seen connector.get_stonith_resources all_stopped limit w2 pos s2)

  standby_all-Seen :
      (limit : ℕ) (w : W) {w' : W}
      → 0 < limit
      → standby_all sleep connector limit w ≡ some (w', ok _)
      → Seen connector.get_resources Stopped w'
  unfolding standby_all
  standby_all-Seen limit w pos same =
      let (w1, _, _, s1) = continue_waiting-eq-ok (some (connector.standby_all w)) _ same in
      Seen-map connector.get_resources all_stopped-Stopped
        (wait_for-Seen connector.get_resources all_stopped limit w1 pos s1)

  -- Where cluster_maintenance succeeds, with a timeout that is not 0, its last look found no resource
  -- active, and before the nodes were put in standby a look found no stonith resource active.
  pub cluster_maintenance-Seen :
      (limit : ℕ) (w : W) {w' : W}
      → 0 < limit
      → cluster_maintenance sleep connector limit w ≡ some (w', ok _)
      → (disabled : W) × Seen connector.get_stonith_resources Stopped disabled
        × (standby_all sleep connector limit disabled ≡ some (w', ok _))
        × Seen connector.get_resources Stopped w'
  unfolding cluster_maintenance
  cluster_maintenance-Seen limit w {w'} pos same =
      let (w1, _, disabled, s1) =
        continue_waiting-eq-ok (on_timeout (disable_stonith sleep connector limit w))
          (λ _. λ v. on_any (standby_all sleep connector limit v)) same in
      let stood = on_any-eq-ok (standby_all sleep connector limit w1) s1 in
      (
        w1,
        disable_stonith-Seen limit w pos
            (on_timeout-eq-ok (disable_stonith sleep connector limit w) disabled),
        stood,
        standby_all-Seen limit w1 pos stood,
      )
