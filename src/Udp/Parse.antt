-- ===== src/Udp/Parse.antt =====
-- The parsers of src/baichuan/bcudp/de.rs. `UdpXml` has the two functions of bcudp/xml.rs that quick_xml
-- derives, with `none` for its errors, and the two variants that the decoder looks for.
use bairelay.Base.{ℕ, Bool, List, [], Option, none, some, leb, ltb, ◌==◌, ◌||◌, if◌then◌else◌}
use bairelay.Wire.Parsed.{Parser, ◌>>=◌, ◌>>◌, ok, error, failure}
use bairelay.Wire.Nom.{Nom}
use bairelay.Udp.Crypto.{Crc32fast, calc_crc, decrypt}
use bairelay.Udp.Model.{
  BcUdp, discovery, ack, payload_data, UdpDiscovery, UdpAck, UdpData, magic_header_udp_nego,
  magic_header_udp_ack, magic_header_udp_data,
}

pub record UdpXml : Type 1 where
  pub Xml : Type 0
  pub try_parse : List ℕ → Option Xml
  pub serialize : Xml → Option (List ℕ)
  pub is_r2c_disc : Xml → Bool
  pub is_d2c_disc : Xml → Bool

abbrev pub max_bcudp_payload : ℕ
max_bcudp_payload = 65535

abbrev pub is_udp_magic : ℕ → Bool
is_udp_magic x =
    (x == magic_header_udp_nego) || (x == magic_header_udp_ack) || (x == magic_header_udp_data)

abbrev pub fits_cap : ℕ → Bool
fits_cap n = leb n max_bcudp_payload

module _ (nom : Nom) (crc : Crc32fast) (xml : UdpXml) where
  open nom use {le_u32, take, verify}

  -- What `udp_disc` does with the packet's bytes: the checksum, then the decryption and the XML.
  unfoldable pub disc_payload : ℕ → ℕ → List ℕ → Parser (UdpDiscovery xml.Xml)
  disc_payload tid checksum enc_data_slice =
      if checksum == calc_crc crc enc_data_slice
      then (elim (xml.try_parse (decrypt tid enc_data_slice)) [
        | none ↦ λ buf. error
        | some payload ↦ ok (record { tid = tid; payload = payload })
      ])
      else λ buf. failure

  unfoldable pub udp_disc : Parser (UdpDiscovery xml.Xml)
  udp_disc = do
    payload_size ← verify le_u32 fits_cap
    verify le_u32 (λ x. x == 1)
    tid ← le_u32
    checksum ← le_u32
    enc_data_slice ← take payload_size
    disc_payload tid checksum enc_data_slice

  -- `if payload_size > 0 { take(payload_size) } else { vec![] }`
  unfoldable pub ack_payload : ℕ → Parser (List ℕ)
  ack_payload payload_size = if ltb 0 payload_size then take payload_size else ok []

  unfoldable pub udp_ack : Parser UdpAck
  udp_ack = do
    connection_id ← le_u32
    verify le_u32 (λ x. x == 0)
    group_id ← verify le_u32 (λ x. (x == 0) || (x == 0xffffffff))
    packet_id ← le_u32
    maybe_latency ← le_u32
    payload_size ← verify le_u32 fits_cap
    payload ← ack_payload payload_size
    ok (record {
      connection_id = connection_id;
      group_id = group_id;
      packet_id = packet_id;
      maybe_latency = maybe_latency;
      payload = payload;
    })

  unfoldable pub udp_data : Parser UdpData
  udp_data = do
    connection_id ← le_u32
    verify le_u32 (λ x. x == 0)
    packet_id ← le_u32
    payload_size ← verify le_u32 fits_cap
    payload ← take payload_size
    ok (record { connection_id = connection_id; packet_id = packet_id; payload = payload })

  -- The `match magic` of `bcudp`.
  unfoldable pub udp_dispatch : ℕ → Parser (BcUdp xml.Xml)
  udp_dispatch magic =
      if magic == magic_header_udp_nego
      then (do payload ← udp_disc; ok (discovery payload))
      else if magic == magic_header_udp_ack
      then (do payload ← udp_ack; ok (ack payload))
      else if magic == magic_header_udp_data
      then (do payload ← udp_data; ok (payload_data payload))
      else λ buf. failure

  unfoldable pub bcudp : Parser (BcUdp xml.Xml)
  bcudp = do magic ← verify le_u32 is_udp_magic; udp_dispatch magic
