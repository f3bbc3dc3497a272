-- ===== src/Config/State.antt =====
-- config.h and config.cpp: the state of `NrpdConfig`, its constructor and its plain accessors.
use nrp_reference.Base.{ℕ, ◌*◌, Bool, true, false, List, [], Option, none, ◌==◌, if◌then◌else◌}
use nrp_reference.Base.Int.{ℤ, negsuc}
use nrp_reference.MruCache
use nrp_reference.MruCache.{MruCache}
use nrp_reference.Protocol.Layout.{
  default_entropy_size, client_min_retry_seconds, client_response_timeout_seconds,
}
use nrp_reference.Protocol.MsgType
use nrp_reference.ServerRecord.{ServerRecord}

-- An iterator is the index of its element, or `none` for `end()`. The set of active servers is the
-- list of its elements in order. The counts are -1 while they are not known.
pub record Config : Type 0 where
  pub port : ℕ
  pub enable_server : Bool
  pub enable_client : Bool
  pub banned_servers : MruCache ServerRecord
  pub configured_servers : List ServerRecord
  pub active_servers : List ServerRecord
  pub probationary_servers : List ServerRecord
  pub active_iterator : Option ℕ
  pub probationary_iterator : Option ℕ
  pub count_ip6_servers : ℤ
  pub count_ip4_servers : ℤ
  pub prev_returned_probationary : Bool
  pub enable_ip4_peers : Bool
  pub enable_ip6_peers : Bool
  pub client_enable_ip4 : Bool
  pub client_enable_ip6 : Bool
  pub server_enable_ip4 : Bool
  pub server_enable_ip6 : Bool
  pub client_request_interval_seconds : ℕ
  pub client_receive_timeout : ℕ
  pub default_entropy : ℕ

-- `NrpdConfig()`. It leaves `m_enableIp4Peers` and `m_enableIp6Peers` as the memory has them: they are
-- arguments here. `now` is the reading of the clock by the constructor of the cache.
unfoldable pub init : Bool → Bool → ℕ → Config
init ip4_peers ip6_peers now = record {
  port = 8080;
  enable_server = true;
  enable_client = true;
  banned_servers = MruCache.init (60 * 60 * 24) now;
  configured_servers = [];
  active_servers = [];
  probationary_servers = [];
  active_iterator = none;
  probationary_iterator = none;
  count_ip6_servers = negsuc 0;
  count_ip4_servers = negsuc 0;
  prev_returned_probationary = true;
  enable_ip4_peers = ip4_peers;
  enable_ip6_peers = ip6_peers;
  client_enable_ip4 = true;
  client_enable_ip6 = true;
  server_enable_ip4 = true;
  server_enable_ip6 = true;
  client_request_interval_seconds = client_min_retry_seconds;
  client_receive_timeout = client_response_timeout_seconds;
  default_entropy = default_entropy_size;
}

unfoldable pub enable_peers_response : Config → ℕ → Bool
enable_peers_response c msg_type =
    if msg_type == MsgType.ip4peers
    then c.enable_ip4_peers
    else if msg_type == MsgType.ip6peers
    then c.enable_ip6_peers
    else false
