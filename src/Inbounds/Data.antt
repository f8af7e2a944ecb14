-- ===== src/Inbounds/Data.antt =====
-- core/inbound.go: the configuration of an inbound. An object that the code marshals to JSON is a
-- value here.
use kknode.Base.{ℕ, String, Bool, List, Option, some}
use kknode.Base.Eq.{string_eq}

pub data InboundError : Type 0 where
  unsupported_type bad_encryption bad_network no_random build_failed : InboundError

-- the header of obfuscated traffic: the path, and the host where there is one
pub record HttpHeader : Type 0 where
  pub path : String
  pub host : Option String

pub record QuicParams : Type 0 where
  pub congestion : String
  pub brutal_up : String
  pub brutal_down : String

pub record Mask : Type 0 where
  pub mask_type : String
  pub settings : String

pub data InboundTransport : Type 0 where
  bare : InboundTransport
  tcp : Option HttpHeader → InboundTransport
  -- host and path
  ws http_upgrade : String → String → InboundTransport
  grpc : String → InboundTransport
  -- host, path and mode
  split_http : String → String → String → InboundTransport
  hysteria_mask : Option QuicParams → Option Mask → InboundTransport

pub data Security : Type 0 where
  no_security : Security
  -- the protocols of ALPN, the files of the certificate and of the key
  tls : List String → String → String → Security
  -- destination, server names, private key and short ids
  reality : String → List String → String → List String → Security

-- `StreamConfig`; a network that is not set is `none`
pub record InboundStream : Type 0 where
  pub network : Option String
  pub transport : InboundTransport
  pub security : Security

-- the settings of an inbound of Shadowsocks; a user is a cipher and a password
pub record ShadowsocksSettings : Type 0 where
  pub cipher : String
  pub password : String
  pub users : List (String × String)
  pub network_list : List String

pub data InboundSettings : Type 0 where
  -- decryption
  vless : String → InboundSettings
  vmess trojan : InboundSettings
  shadowsocks : ShadowsocksSettings → InboundSettings
  -- version
  hysteria : ℕ → InboundSettings
  -- congestion control and handshake without a round trip
  tuic : String → Bool → InboundSettings
  anytls : List String → InboundSettings

-- `InboundDetourConfig`
pub record InboundDetour : Type 0 where
  pub protocol : String
  pub settings : InboundSettings
  pub port_from : ℕ
  pub port_to : ℕ
  pub listen_on : String
  pub sniffing : Bool
  pub dest_override : List String
  pub stream : Option InboundStream
  pub tag : String

-- What the builders of the protocols set of a new `InboundDetourConfig`.
pub record Built : Type 0 where
  pub protocol : String
  pub settings : InboundSettings
  pub stream : Option InboundStream

abbrev pub with_stream : String → InboundSettings → String → InboundTransport → Built
with_stream protocol settings network transport = record {
  protocol = protocol;
  settings = settings;
  stream = some (record { network = some network; transport = transport; security = no_security });
}
