-- ===== src/Config/Accessors.antt =====
-- config.cpp: what the server and the client read of the settings.
use nrp_reference.Base.{ℕ, Bool}
use nrp_reference.Config.State.{Config}

abbrev pub server_port : Config → ℕ
server_port c = c.port

abbrev pub default_entropy_bytes : Config → ℕ
default_entropy_bytes c = c.default_entropy

abbrev pub enables_server : Config → Bool
enables_server c = c.enable_server

abbrev pub enables_client : Config → Bool
enables_client c = c.enable_client

abbrev pub client_request_interval : Config → ℕ
client_request_interval c = c.client_request_interval_seconds

abbrev pub receive_timeout : Config → ℕ
receive_timeout c = c.client_receive_timeout

abbrev pub enable_client_ip4 : Config → Bool
enable_client_ip4 c = c.client_enable_ip4

abbrev pub enable_client_ip6 : Config → Bool
enable_client_ip6 c = c.client_enable_ip6

abbrev pub enable_server_ip4 : Config → Bool
enable_server_ip4 c = c.server_enable_ip4

abbrev pub enable_server_ip6 : Config → Bool
enable_server_ip6 c = c.server_enable_ip6
