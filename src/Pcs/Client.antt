-- ===== src/Pcs/Client.antt =====
-- The client of pcs (ha/pcswrap/pcswrap/client.py) over its connector, whose methods
-- (`PcsConnector` of types.py) are a parameter, with the waiter for what it waits for. An operation
-- that waits gives `none` only if the waiter's bound on its rounds were met.
use cortx_ha.Prelude.{
  ℕ, String, ◌==◌, Bool, true, false, not, ◌&&◌, List, [], ◌∷◌, Option, none, some, eqb,
  if◌then◌else◌,
}
use cortx_ha.Prelude.{Exn, Result, ok, raise, timeout, maintenance_failed}
use cortx_ha.Prelude.Acting.{Act, pure, for_each, ◌>>=◌, ◌>>◌}
use cortx_ha.Pcs.Waiter.{Waiter, wait}
pub mod Shutdown

pub record Node : Type 0 where
  pub name : String
  pub online : Bool
  pub standby : Bool
  pub unclean : Bool
  pub resources_running : ℕ

pub record Resource : Type 0 where
  pub id : String
  pub resource_agent : String
  pub role : String
  pub target_role : String
  pub active : Bool
  pub orphaned : Bool
  pub blocked : Bool
  pub managed : Bool
  pub failed : Bool
  pub failure_ignored : Bool
  pub nodes_running_on : ℕ

pub record Credentials : Type 0 where
  pub username : String
  pub password : String

-- the methods that the client uses but for its status
pub record Connector (W : Type 0) : Type 0 where
  pub set_credentials : Credentials → Act W (Unit {0})
  pub ensure_authorized : Act W (Unit {0})
  pub get_cluster_name : Act W String
  pub get_nodes : Act W (List Node)
  pub get_resources : Act W (List Resource)
  pub get_stonith_resources : Act W (List Resource)
  pub standby_node : String → Act W (Unit {0})
  pub unstandby_node : String → Act W (Unit {0})
  pub standby_all : Act W (Unit {0})
  pub unstandby_all : Act W (Unit {0})
  pub shutdown_node : String → Act W (Unit {0})
  pub manual_shutdown_node : String → Act W (Unit {0})
  pub ensure_shutdown_possible : String → Act W (Unit {0})
  pub disable_resource : Resource → Act W (Unit {0})
  pub enable_resource : Resource → Act W (Unit {0})

-- `all(not r.active for r in resource_list)`
unfoldable pub all_stopped : List Resource → Bool
all_stopped [] = true
all_stopped (r ∷ rs) = not r.active && all_stopped rs

unfoldable pub all_started : List Resource → Bool
all_started [] = true
all_started (r ∷ rs) = r.active && all_started rs

unfoldable pub non_standby_nodes : List Node → Bool
non_standby_nodes [] = true
non_standby_nodes (n ∷ ns) = not n.standby && non_standby_nodes ns

-- the first node of the name has no resources running; no node of the name is no success
unfoldable pub has_no_resources : String → List Node → Bool
has_no_resources node_name [] = false
has_no_resources node_name (n ∷ ns) =
    if n.name == node_name then eqb n.resources_running 0 else has_no_resources node_name ns

unfoldable pub online_of : List Node → List Node
online_of [] = []
online_of (n ∷ ns) = if n.online then n ∷ online_of ns else online_of ns

unfoldable pub is_only : String → List Node → Bool
is_only node_name (n ∷ []) = n.name == node_name
is_only node_name _ = false

-- steps one of which may be a wait
abbrev pub Waiting : Type 0 → Type 0 → Type 0
Waiting W A = W → Option (W × Result A)

abbrev of_timeout : Exn → Exn
of_timeout timeout = maintenance_failed
of_timeout e = e

module _ {W : Type 0} where
  abbrev pub step : {A : Type 0} → Act W A → Waiting W A
  step m w = some (m w)

  abbrev pub continue_waiting :
      {A B : Type 0} → Option (W × Result A) → (A → Waiting W B) → Option (W × Result B)
  continue_waiting none f = none
  continue_waiting (some (w, ok a)) f = f a w
  continue_waiting (some (w, raise e)) f = some (w, raise e)

  infixl 5 ◌>>>=◌
  abbrev pub ◌>>>=◌ : {A B : Type 0} → Waiting W A → (A → Waiting W B) → Waiting W B
  (m >>>= f) w = continue_waiting (m w) f

  -- `except TimeoutException: raise MaintenanceFailed()`
  abbrev pub on_timeout : Option (W × Result (Unit {0})) → Option (W × Result (Unit {0}))
  on_timeout none = none
  on_timeout (some (w, ok a)) = some (w, ok a)
  on_timeout (some (w, raise e)) = some (w, raise (of_timeout e))

  -- `except Exception: raise MaintenanceFailed()`
  abbrev pub on_any : Option (W × Result (Unit {0})) → Option (W × Result (Unit {0}))
  on_any none = none
  on_any (some (w, ok a)) = some (w, ok a)
  on_any (some (w, raise e)) = some (w, raise maintenance_failed)

module _ {W : Type 0} (sleep : ℕ → W → W) (connector : Connector W) where
  -- a waiter with the default pause
  abbrev pub waiter : {D : Type 0} → Act W D → (D → Bool) → ℕ → Waiter W D
  waiter provider_fn predicate limit = record {
    provider_fn = provider_fn;
    predicate = λ found. ok (predicate found);
    pause_seconds = 2;
    timeout_seconds = limit;
  }

  unfoldable pub wait_for : {D : Type 0} → Act W D → (D → Bool) → ℕ → Waiting W (Unit {0})
  wait_for provider_fn predicate limit = wait sleep (waiter provider_fn predicate limit)

  abbrev set_credentials_if : Option Credentials → Act W (Unit {0})
  set_credentials_if none = pure _
  set_credentials_if (some credentials) = connector.set_credentials credentials

  -- `_ensure_sane`
  unfoldable pub ensure_sane : Act W (Unit {0})
  ensure_sane = connector.get_nodes >> pure _

  -- `__init__`, with a connector
  unfoldable pub init : Option Credentials → Act W (Unit {0})
  unfolding ensure_sane
  init credentials = set_credentials_if credentials >> connector.ensure_authorized >> ensure_sane

  unfoldable pub get_all_nodes : Act W (List Node)
  get_all_nodes = connector.get_nodes

  unfoldable pub standby_node : String → Act W (Unit {0})
  standby_node node_name = connector.standby_node node_name

  unfoldable pub unstandby_node : String → Act W (Unit {0})
  unstandby_node node_name = connector.unstandby_node node_name

  unfoldable pub get_cluster_name : Act W String
  get_cluster_name = connector.get_cluster_name

  unfoldable pub get_online_nodes : Act W (List Node)
  get_online_nodes = do nodes ← connector.get_nodes; pure (online_of nodes)

  -- `_is_last_online_node`
  unfoldable pub is_last_online_node : String → Act W Bool
  is_last_online_node node_name = do nodes ← get_online_nodes; pure (is_only node_name nodes)

  unfoldable pub standby_all : ℕ → Waiting W (Unit {0})
  standby_all limit =
      step connector.standby_all >>>= λ _. wait_for connector.get_resources all_stopped limit

  unfoldable pub unstandby_all : ℕ → Waiting W (Unit {0})
  unstandby_all limit =
      step connector.unstandby_all >>>= λ _. wait_for connector.get_nodes non_standby_nodes limit

  unfoldable pub power_off : String → Bool → Act W (Unit {0})
  power_off node_name true = connector.manual_shutdown_node node_name
  power_off node_name false = connector.shutdown_node node_name

  unfoldable pub shutdown_node : String → ℕ → Waiting W (Unit {0})
  shutdown_node node_name limit = step (is_last_online_node node_name) >>>= λ last_node.
      step (connector.ensure_shutdown_possible node_name) >>>= λ _.
      step (connector.standby_node node_name) >>>= λ _.
      wait_for connector.get_nodes (has_no_resources node_name) limit >>>= λ _.
      step (power_off node_name last_node)

  unfoldable pub disable_stonith : ℕ → Waiting W (Unit {0})
  disable_stonith limit = step connector.get_stonith_resources >>>= λ resources.
      step (for_each resources connector.disable_resource) >>>= λ _.
      wait_for connector.get_stonith_resources all_stopped limit

  unfoldable pub enable_stonith : ℕ → Waiting W (Unit {0})
  enable_stonith limit = step connector.get_stonith_resources >>>= λ resources.
      step (for_each resources connector.enable_resource) >>>= λ _.
      wait_for connector.get_stonith_resources all_started limit

  unfoldable pub cluster_maintenance : ℕ → Waiting W (Unit {0})
  cluster_maintenance limit =
      (λ w. on_timeout (disable_stonith limit w)) >>>= λ _. λ w. on_any (standby_all limit w)

  unfoldable pub cluster_unmaintenance : ℕ → Waiting W (Unit {0})
  cluster_unmaintenance limit = unstandby_all limit >>>= λ _. enable_stonith limit
