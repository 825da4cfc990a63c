-- ===== src/Config.antt =====
-- xcesp_l2tpv3d/config.py: the data classes of a configuration. A text is the bytes of its UTF-8
-- encoding, and a time is a number of milliseconds.
pub mod Value
pub mod Convert
pub mod Check
pub mod Session
pub mod Tunnel
pub mod Load
pub mod Unique
pub mod Ensures
pub mod Accepted
pub mod Drives
use xcesp_l2tpv3d.Common.{ℕ, Bool, Option, List}
use xcesp_l2tpv3d.Common.Int.{ℤ}
use xcesp_l2tpv3d.Struct.{Bytes}
use xcesp_l2tpv3d.Auth.{DigestHash}

-- `log_level`, a text that the parser has checked.
pub data LogLevel : Type 0 where
  debug info warning error : LogLevel

pub record GlobalConfig : Type 0 where
  pub log_level : LogLevel
  pub listen_address : Bytes
  pub listen_port : ℕ

-- `PseudowireType` of xcesp_l2tpv3d/avp.py, as far as a configuration names it.
pub data PseudowireType : Type 0 where
  ethernet ethernet_vlan : PseudowireType

-- `int(pseudowire_type)`
abbrev pub pseudowire_number : PseudowireType → ℕ
pseudowire_number ethernet = 5
pseudowire_number ethernet_vlan = 4

pub record SessionConfigEntry : Type 0 where
  pub name : Bytes
  pub pseudowire_type : PseudowireType
  pub local_sid : ℕ
  pub initiator : Bool
  pub l2_specific_sublayer : ℕ
  pub data_sequencing : ℕ
  pub circuit_status : ℕ
  pub cookie : Option Bytes
  pub peer_cookie : Option Bytes
  pub tx_connect_speed : Option ℤ
  pub rx_connect_speed : Option ℤ
  pub ifname : Option Bytes

pub record TunnelConfigEntry : Type 0 where
  pub name : Bytes
  pub local_address : Bytes
  pub remote_address : Bytes
  pub local_ccid : ℕ
  pub host_name : Bytes
  pub router_id : ℕ
  pub remote_ccid : ℕ
  pub password : Option Bytes
  pub digest_alg : DigestHash
  pub hello_interval : ℕ
  pub retransmit_interval : ℕ
  pub max_retries : ℕ
  pub receive_window : ℕ
  pub tx_connect_speed : ℤ
  pub rx_connect_speed : ℤ
  pub vendor_name : Option Bytes
  pub firmware_revision : Option ℕ
  pub sessions : List SessionConfigEntry

pub record DaemonConfig : Type 0 where
  pub global : GlobalConfig
  pub tunnels : List TunnelConfigEntry
