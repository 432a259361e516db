-- ===== src/Udp/Model.antt =====
-- The packets of src/baichuan/bcudp/model.rs. A u32 is a number, and an i32 its bit pattern below 2 ^ 32.
use bairelay.Base.{ℕ, List, []}

abbrev pub magic_header_udp_nego : ℕ
magic_header_udp_nego = 0x2a87cf3a

abbrev pub magic_header_udp_ack : ℕ
magic_header_udp_ack = 0x2a87cf20

abbrev pub magic_header_udp_data : ℕ
magic_header_udp_data = 0x2a87cf10

-- `Xml` stands for the `UdpXml` tree of bcudp/xml.rs.
pub record UdpDiscovery (Xml : Type 0) : Type 0 where
  pub tid : ℕ
  pub payload : Xml

pub record UdpAck : Type 0 where
  pub connection_id : ℕ
  pub group_id : ℕ
  pub packet_id : ℕ
  pub maybe_latency : ℕ
  pub payload : List ℕ

pub record UdpData : Type 0 where
  pub connection_id : ℕ
  pub packet_id : ℕ
  pub payload : List ℕ

pub data BcUdp (Xml : Type 0) : Type 0 where
  discovery : UdpDiscovery Xml → BcUdp Xml
  ack : UdpAck → BcUdp Xml
  payload_data : UdpData → BcUdp Xml

-- `UdpAck::empty`: no packets received yet.
abbrev pub empty_ack : ℕ → UdpAck
empty_ack connection_id = record {
  connection_id = connection_id;
  group_id = 0xffffffff;
  packet_id = 0xffffffff;
  maybe_latency = 0;
  payload = [];
}

unfoldable pub get_connection_id : {Xml : Type 0} → BcUdp Xml → ℕ
get_connection_id (discovery d) = 0
get_connection_id (ack a) = a.connection_id
get_connection_id (payload_data d) = d.connection_id
