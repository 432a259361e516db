-- ===== src/Udp/Codex.antt =====
-- The codec of src/baichuan/bcudp/codex.rs.
use bairelay.Base.{
  ℕ, ◌≤◌, ◌≡◌, ◌≢◌, false, List, [], ◌∷◌, ◌++◌, Option, none, some, length, if◌then◌else◌,
  Bool-cases, inl, inr, leb, sym, ap, ◌∙◌, ◌<◌, ◌%◌, ◌==◌, refl, arith,
}
use bairelay.Wire.Words.{u32_then, verify_then, take_then, le_u32-le_u32}
use bairelay.Wire.Parsed.{Parsed, failure_stops, incomplete_stops, done, incomplete, error, failure}
use bairelay.Wire.Nom.{Nom, accept}
use bairelay.Wire.CookieFactory.{CookieFactory}
use bairelay.Udp.Crypto.{Crc32fast, calc_crc}
use bairelay.Udp.Model.{BcUdp, discovery, ack, payload_data, magic_header_udp_nego}
use bairelay.Udp.Parse.{UdpXml, bcudp, is_udp_magic, udp_dispatch, udp_disc, disc_payload}
use bairelay.Udp.Print.{serialize_udp}
use bairelay.Udp.RoundTrip.{FitsUdp, bcudp-serialize_udp}
use bairelay.Udp.Cap.{bcudp-ne-incomplete}

-- `Ok(Some(bc))`, `Ok(None)`, and the errors.
pub data Datagram (Xml : Type 0) : Type 0 where
  packet : BcUdp Xml → Datagram Xml
  no_packet : Datagram Xml
  relay_terminate : Datagram Xml
  camera_terminate : Datagram Xml
  refused : Datagram Xml

module _ (crc : Crc32fast) (xml : UdpXml) where
  -- `none` is an `Err`, and leaves `dst` as it was.
  unfoldable pub encode_udp : CookieFactory → BcUdp xml.Xml → List ℕ → Option (List ℕ)
  encode_udp cf item dst = elim (serialize_udp cf crc xml item) [
    | none ↦ none
    | some buf ↦ some (dst ++ buf)
  ]

  -- The two discovery variants that end a connection, then any other packet.
  unfoldable pub sort_packet : BcUdp xml.Xml → Datagram xml.Xml
  sort_packet (discovery d) =
      if xml.is_r2c_disc d.payload
      then relay_terminate
      else if xml.is_d2c_disc d.payload
      then camera_terminate
      else packet (discovery d)
  sort_packet (ack a) = packet (ack a)
  sort_packet (payload_data d) = packet (payload_data d)

  -- The `match` of `decode`, with what is left of `src`.
  unfoldable pub outcome : Parsed (BcUdp xml.Xml) → List ℕ → Datagram xml.Xml × List ℕ
  unfolding sort_packet
  outcome (done bc rest) src = (sort_packet bc, rest)
  outcome incomplete src = (no_packet, src)
  outcome error src = (refused, src)
  outcome failure src = (refused, src)

  unfoldable pub decode_udp : Nom → List ℕ → Datagram xml.Xml × List ℕ
  decode_udp nom [] = (no_packet, [])
  decode_udp nom (x ∷ src) = outcome (bcudp nom crc xml (x ∷ src)) (x ∷ src)

-- A discovery packet with the checksum field `sum`, and what follows it in the buffer.
abbrev pub with_checksum : CookieFactory → ℕ → ℕ → List ℕ → List ℕ → List ℕ
with_checksum cf tid sum enc rest =
    cf.le_u32 magic_header_udp_nego
    ++ (cf.le_u32 (length enc)
        ++ (cf.le_u32 1 ++ (cf.le_u32 tid ++ (cf.le_u32 sum ++ (enc ++ rest)))))

module _ (nom : Nom) (crc : Crc32fast) (xml : UdpXml) where
  bcudp_empty : bcudp nom crc xml [] ≡ incomplete
  unfolding bcudp
  bcudp_empty =
      incomplete_stops _ _ [] (
        nom.verify_reads nom.le_u32 is_udp_magic []
        ∙ rw (nom.le_u32_short [] (omega arith), accept))

  decode_udp_lem :
      (buf : List ℕ) → decode_udp crc xml nom buf ≡ outcome crc xml (bcudp nom crc xml buf) buf
  unfolding decode_udp outcome
  decode_udp_lem [] = rw bcudp_empty refl
  decode_udp_lem (x ∷ buf) = refl

  -- A UDP packet whose fields fit is encoded behind what the buffer holds; decoding its bytes
  -- gives it back, or ends the connection when it is one of the two disconnect packets, and
  -- leaves what follows. A discovery packet comes back through its masking and its checksum,
  -- where quick_xml reads back what it wrote.
  pub decode_udp-encode_udp :
      (cf : CookieFactory) (p : BcUdp xml.Xml) (dst rest : List ℕ)
      → FitsUdp xml p
      → (bytes : List ℕ) × (encode_udp crc xml cf p dst ≡ some (dst ++ bytes))
        × (decode_udp crc xml nom (bytes ++ rest) ≡ (sort_packet crc xml p, rest))
  unfolding encode_udp outcome
  decode_udp-encode_udp cf p dst rest v =
      let (bytes, writes, reads) = bcudp-serialize_udp nom cf crc xml p rest v in
      (bytes, rw (writes, encode_udp), decode_udp_lem (bytes ++ rest) ∙ rw (reads, outcome))

  sort_packet-ne-no_packet : (p : BcUdp xml.Xml) → sort_packet crc xml p ≢ no_packet
  unfolding sort_packet
  sort_packet-ne-no_packet (discovery d) = ground arith
  sort_packet-ne-no_packet (ack a) = ground arith
  sort_packet-ne-no_packet (payload_data d) = ground arith

  outcome-ne-no_packet :
      (r : Parsed (BcUdp xml.Xml)) (buf : List ℕ)
      → r ≢ incomplete
      → (outcome crc xml r buf).0 ≢ no_packet
  unfolding outcome
  outcome-ne-no_packet (done p rest) buf h = sort_packet-ne-no_packet p
  outcome-ne-no_packet incomplete buf h = absurd (h refl)
  outcome-ne-no_packet error buf h = λ e. cc
  outcome-ne-no_packet failure buf h = λ e. cc

  -- The UDP decoder asks for more bytes only while it has fewer than 65563: no packet makes it
  -- buffer more.
  decode_udp_bound :
      (buf : List ℕ) → (decode_udp crc xml nom buf).0 ≡ no_packet → length buf < 65563
  decode_udp_bound buf e = elim (Bool-cases (leb 65563 (length buf))) [
    | inr short ↦ ground arith
    | inl long ↦ absurd (
        outcome-ne-no_packet (bcudp nom crc xml buf) buf
          (bcudp-ne-incomplete nom crc xml buf (ground arith))
          (ap (λ r. r.0) (sym (decode_udp_lem buf)) ∙ e))
  ]

  disc_payload_corrupt :
      (tid sum : ℕ) (enc rest : List ℕ)
      → sum < 4294967296
      → sum ≢ calc_crc crc enc
      → disc_payload nom crc xml tid (sum % 4294967296) enc rest ≡ failure
  unfolding disc_payload
  disc_payload_corrupt tid sum enc rest fits wrong =
      let e : sum % 4294967296 ≡ sum = omega arith in
      let n : (sum == calc_crc crc enc) ≡ false = ground arith in rw (e, n)

  -- A discovery packet of any masked bytes, at most 65535, whose checksum field is not their
  -- checksum is refused, and the buffer is left as it is.
  decode_udp_corrupt :
      (cf : CookieFactory) (tid sum : ℕ) (enc rest : List ℕ)
      → length enc ≤ 65535
      → sum < 4294967296
      → sum ≢ calc_crc crc enc
      → let buf = with_checksum cf tid sum enc rest in decode_udp crc xml nom buf ≡ (refused, buf)
  unfolding bcudp udp_dispatch udp_disc outcome
  decode_udp_corrupt cf tid sum enc rest short fits wrong =
      let fails : bcudp nom crc xml (with_checksum cf tid sum enc rest) ≡ failure =
        verify_then nom _ _ _ _ (le_u32-le_u32 nom cf _ _) refl (
          failure_stops _ _ _ (
            verify_then nom _ _ _ _ (le_u32-le_u32 nom cf _ _) (ground arith) (
              verify_then nom _ _ _ _ (le_u32-le_u32 nom cf 1 _) refl (
                u32_then nom cf _ tid (
                  u32_then nom cf _ sum (
                    take_then nom _ enc _ _ (omega arith)
                      (disc_payload_corrupt _ sum enc rest fits wrong))))))) in
      decode_udp_lem (with_checksum cf tid sum enc rest) ∙ rw (fails, outcome)
