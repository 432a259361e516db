-- ===== src/Udp/Print.antt =====
-- The writers of src/baichuan/bcudp/ser.rs. `none` is an `Err`.
use bairelay.Base.{ℕ, List, ◌++◌, Option, none, some, length, leb, if◌then◌else◌}
use bairelay.Wire.CookieFactory.{CookieFactory}
use bairelay.Udp.Crypto.{Crc32fast, calc_crc, encrypt}
use bairelay.Udp.Parse.{UdpXml}
use bairelay.Udp.Model.{
  BcUdp, discovery, ack, payload_data, UdpDiscovery, UdpAck, UdpData, magic_header_udp_nego,
  magic_header_udp_ack, magic_header_udp_data,
}

unfoldable pub len_as_u32 : ℕ → Option ℕ
len_as_u32 len = if leb len 4294967295 then some len else none

module _ (cf : CookieFactory) (crc : Crc32fast) (xml : UdpXml) where
  open cf use {le_u32}

  -- What follows the magic number.
  unfoldable pub disc_fields : UdpDiscovery xml.Xml → List ℕ → ℕ → List ℕ
  disc_fields payload xml_payload xml_len =
      le_u32 xml_len
      ++ (le_u32 1 ++ (le_u32 payload.tid ++ (le_u32 (calc_crc crc xml_payload) ++ xml_payload)))

  unfoldable pub bcudp_disc : UdpDiscovery xml.Xml → List ℕ → ℕ → List ℕ
  bcudp_disc payload xml_payload xml_len =
      le_u32 magic_header_udp_nego ++ disc_fields payload xml_payload xml_len

  unfoldable pub ack_fields : UdpAck → List ℕ → ℕ → List ℕ
  ack_fields payload binary_payload bin_len =
      le_u32 payload.connection_id
      ++ (le_u32 0
          ++ (le_u32 payload.group_id
              ++ (le_u32 payload.packet_id
                  ++ (le_u32 payload.maybe_latency ++ (le_u32 bin_len ++ binary_payload)))))

  unfoldable pub bcudp_ack : UdpAck → List ℕ → ℕ → List ℕ
  bcudp_ack payload binary_payload bin_len =
      le_u32 magic_header_udp_ack ++ ack_fields payload binary_payload bin_len

  unfoldable pub data_fields : UdpData → List ℕ → ℕ → List ℕ
  data_fields payload binary_payload bin_len =
      le_u32 payload.connection_id
      ++ (le_u32 0 ++ (le_u32 payload.packet_id ++ (le_u32 bin_len ++ binary_payload)))

  unfoldable pub bcudp_data : UdpData → List ℕ → ℕ → List ℕ
  bcudp_data payload binary_payload bin_len =
      le_u32 magic_header_udp_data ++ data_fields payload binary_payload bin_len

  -- The three arms of `BcUdp::serialize`.
  unfoldable pub serialize_disc : UdpDiscovery xml.Xml → Option (List ℕ)
  serialize_disc payload = elim (xml.serialize payload.payload) [
    | none ↦ none
    | some xml_bytes ↦
        let xml_payload = encrypt payload.tid xml_bytes in
        elim (len_as_u32 (length xml_payload)) [
          | none ↦ none
          | some xml_len ↦ some (bcudp_disc payload xml_payload xml_len)
        ]
  ]

  unfoldable pub serialize_udp : BcUdp xml.Xml → Option (List ℕ)
  unfolding serialize_disc
  serialize_udp (discovery payload) = serialize_disc payload
  serialize_udp (ack payload) = elim (len_as_u32 (length payload.payload)) [
    | none ↦ none
    | some bin_len ↦ some (bcudp_ack payload payload.payload bin_len)
  ]
  serialize_udp (payload_data payload) = elim (len_as_u32 (length payload.payload)) [
    | none ↦ none
    | some bin_len ↦ some (bcudp_data payload payload.payload bin_len)
  ]
