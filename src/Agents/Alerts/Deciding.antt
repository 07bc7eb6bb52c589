-- ===== src/Agents/Alerts/Deciding.antt =====
-- What the agents of the two nodes of a resource answer together.
use cortx_ha.Prelude.{◌≡◌}
use cortx_ha.Agents.Alerts.{Code, success, Host}

module _ {S : Type 0} where
  abbrev pub Succeeds : (Host S → Host S × Code) → Type 0
  Succeeds ack = (h : Host S) → (ack h).1 ≡ success
