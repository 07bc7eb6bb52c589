-- ===== src/Controllers/NodeStatuses.antt =====
-- `NODE_STATUSES` of ha/const.py.
use cortx_ha.Prelude.{String}

abbrev pub cluster_offline : String
cluster_offline = "offline"

abbrev pub standby : String
standby = "standby"

abbrev pub online : String
online = "online"

abbrev pub standby_with_resources_running : String
standby_with_resources_running = "standby with resource(s) running"

abbrev pub maintenance : String
maintenance = "maintenance"

abbrev pub unknown : String
unknown = "unknown"

abbrev pub poweroff : String
poweroff = "poweroff or disconnected"
