-- ===== src/Panel.antt =====
-- The data of the panel's interface that the other parts share: api/panel/user.go,
-- api/panel/server.go and api/panel/node.go.
pub mod Client
pub mod Config
pub mod Secrets
use kknode.Base.{String, Bool, List, Option}
use kknode.Base.Int.{ℤ}

-- a user of the node, as the panel lists it
pub record UserInfo : Type 0 where
  pub id : ℤ
  pub uuid : String
  pub speed_limit : ℤ
  pub device_limit : ℤ

pub record OnlineUser : Type 0 where
  pub uid : ℤ
  pub ip : String

pub record UserTraffic : Type 0 where
  pub uid : ℤ
  pub upload : ℤ
  pub download : ℤ

-- a DNS server with the domains it answers for
pub record DnsItem : Type 0 where
  pub proto : String
  pub address : String
  pub domains : List String

-- an outbound of the panel's configuration
pub record Outbound : Type 0 where
  pub name : String
  pub protocol : String
  pub address : String
  pub port : ℤ
  pub user : String
  pub password : String
  pub uuid : String
  pub cipher : String
  pub security : String
  pub sni : String
  pub allow_insecure : Bool
  pub fingerprint : String
  pub transport : String
  pub host : String
  pub path : String
  pub service_name : String
  pub flow : String
  pub uot : Bool
  pub uot_version : ℤ
  pub congestion_controller : String
  pub udp_stream : Bool
  pub reduce_rtt : Bool
  pub heartbeat : ℤ
  pub reality_public_key : String
  pub reality_short_id : String
  pub spider_x : String
  pub settings : String
  pub stream_settings : String
  pub rules : List String

-- a protocol that the node serves
pub record Protocol : Type 0 where
  pub node_type : String
  pub port : ℤ
  pub enable : Bool
  pub security : String
  pub sni : String
  pub allow_insecure : Bool
  pub fingerprint : String
  pub reality_server_addr : String
  pub reality_server_port : ℤ
  pub reality_private_key : String
  pub reality_public_key : String
  pub reality_short_id : String
  pub transport : String
  pub host : String
  pub path : String
  pub service_name : String
  pub cipher : String
  pub server_key : String
  pub flow : String
  pub hop_ports : String
  pub hop_interval : ℤ
  pub obfs_password : String
  pub disable_sni : Bool
  pub reduce_rtt : Bool
  pub udp_relay_mode : String
  pub congestion_controller : String
  pub multiplex : String
  pub padding_scheme : String
  pub up_mbps : ℤ
  pub down_mbps : ℤ
  pub obfs : String
  pub obfs_host : String
  pub obfs_path : String
  pub xhttp_mode : String
  pub xhttp_extra : String
  pub encryption : String
  pub encryption_mode : String
  pub encryption_rtt : String
  pub encryption_ticket : String
  pub encryption_server_padding : String
  pub encryption_private_key : String
  pub encryption_client_padding : String
  pub encryption_password : String
  pub cert_mode : String
  pub cert_dns_provider : String
  pub cert_dns_env : String

-- the configuration of a server; a `nil` pointer is `none`
pub record Data : Type 0 where
  pub traffic_report_threshold : ℤ
  pub push_interval : ℤ
  pub pull_interval : ℤ
  pub ip_strategy : String
  pub dns : Option (List DnsItem)
  pub block : Option (List String)
  pub outbound : Option (List Outbound)
  pub protocols : Option (List Protocol)
  pub total : ℤ

pub record ServerConfigResponse : Type 0 where
  pub code : ℤ
  pub msg : String
  pub config : Option Data

-- a protocol of a server as one node
pub record NodeInfo : Type 0 where
  pub id : ℤ
  pub node_type : String
  pub push_interval : ℤ
  pub pull_interval : ℤ
  pub traffic_report_threshold : ℤ
  pub protocol : Protocol
