-- ===== src/Udp/RoundTrip.antt =====
-- UDP packets: reading back what was written.
use bairelay.Base.{
  ℕ, ◌%◌, ◌≤◌, ◌<◌, ◌≡◌, ◌⊎◌, refl, ap, true, List, [], ◌∷◌, ◌++◌, append_assoc, some, length, ltb,
  ==_refl, arith,
}
use bairelay.Wire.Parsed.{done, then_reads}
use bairelay.Wire.Nom.{Nom}
use bairelay.Wire.CookieFactory.{CookieFactory}
use bairelay.Wire.Words.{u32_then, verify_then, take_then, le_u32-le_u32}
use bairelay.Udp.Crypto.{
  Crc32fast, calc_crc, calc_crc_fits, encrypt, decrypt-encrypt, length-encrypt,
}
use bairelay.Udp.Model.{BcUdp, discovery, ack, payload_data, UdpDiscovery, UdpAck, UdpData}
use bairelay.Udp.Parse.{
  UdpXml, max_bcudp_payload, disc_payload, udp_disc, ack_payload, udp_ack, udp_data, udp_dispatch,
  bcudp,
}
use bairelay.Udp.Print.{
  len_as_u32, disc_fields, bcudp_disc, ack_fields, bcudp_ack, data_fields, bcudp_data,
  serialize_disc, serialize_udp,
}

abbrev pub IsU32 : ℕ → Type 0
IsU32 n = n < 4294967296

-- A discovery packet whose XML quick_xml writes, within the size cap, and reads back.
pub record FitsDisc (xml : UdpXml) (d : UdpDiscovery xml.Xml) : Type 0 where
  pub tid : IsU32 d.tid
  pub bytes : List ℕ
  pub writes : xml.serialize d.payload ≡ some bytes
  pub reads : xml.try_parse bytes ≡ some d.payload
  pub size : length bytes ≤ max_bcudp_payload

pub record FitsAck (a : UdpAck) : Type 0 where
  pub connection_id : IsU32 a.connection_id
  pub group_id : (a.group_id ≡ 0) ⊎ (a.group_id ≡ 0xffffffff)
  pub packet_id : IsU32 a.packet_id
  pub maybe_latency : IsU32 a.maybe_latency
  pub size : length a.payload ≤ max_bcudp_payload

pub record FitsData (d : UdpData) : Type 0 where
  pub connection_id : IsU32 d.connection_id
  pub packet_id : IsU32 d.packet_id
  pub size : length d.payload ≤ max_bcudp_payload

abbrev pub FitsUdp : (xml : UdpXml) → BcUdp xml.Xml → Type 0
FitsUdp xml (discovery d) = FitsDisc xml d
FitsUdp xml (ack a) = FitsAck a
FitsUdp xml (payload_data d) = FitsData d

module _ (nom : Nom) (cf : CookieFactory) (crc : Crc32fast) (xml : UdpXml) where
  disc_payload_reads :
      (d : UdpDiscovery xml.Xml) (v : FitsDisc xml d) (rest : List ℕ)
      → disc_payload nom crc xml
          (d.tid % 4294967296)
          (calc_crc crc (encrypt d.tid v.bytes) % 4294967296)
          (encrypt d.tid v.bytes)
          rest
        ≡ done d rest
  unfolding disc_payload
  disc_payload_reads d v rest =
      let e : d.tid % 4294967296 ≡ d.tid = omega (arith, v.tid) in
      let f : calc_crc crc (encrypt d.tid v.bytes) % 4294967296
          ≡ calc_crc crc (encrypt d.tid v.bytes) =
        omega (arith, calc_crc_fits crc (encrypt d.tid v.bytes)) in
      rw (e, f, ==_refl (calc_crc crc (encrypt d.tid v.bytes)), decrypt-encrypt d.tid v.bytes)
        (rw (v.reads, disc_payload)
          (ap (λ t. done (record { tid = t; payload = d.payload }) rest) e))

  udp_disc_reads :
      (d : UdpDiscovery xml.Xml) (v : FitsDisc xml d) (rest : List ℕ)
      → udp_disc nom crc xml (
          disc_fields cf crc xml d (encrypt d.tid v.bytes) (length (encrypt d.tid v.bytes)) ++ rest)
        ≡ done d rest
  unfolding udp_disc disc_fields
  udp_disc_reads d v rest = simp append_assoc (
      verify_then nom _ _ _ _ (le_u32-le_u32 nom cf _ _)
        (ground (arith, v.size, length-encrypt d.tid v.bytes))
        (verify_then nom _ _ _ _ (le_u32-le_u32 nom cf 1 _) refl (
          u32_then nom cf _ d.tid (
            u32_then nom cf _ _ (
              take_then nom _ (encrypt d.tid v.bytes) _ _
                (omega (arith, v.size, length-encrypt d.tid v.bytes))
                (disc_payload_reads d v rest))))))

  ack_payload_reads :
      (payload rest : List ℕ) (n : ℕ)
      → n ≡ length payload
      → ack_payload nom crc xml n (payload ++ rest) ≡ done payload rest
  unfolding ack_payload
  ack_payload_reads [] rest n e = rw e refl
  ack_payload_reads (x ∷ xs) rest n e =
      let t : ltb 0 n ≡ true = ground arith in rw t (rw e (nom.take_reads (x ∷ xs) rest))

  udp_ack_reads :
      (a : UdpAck) (rest : List ℕ)
      → FitsAck a
      → udp_ack nom crc xml (ack_fields cf crc xml a a.payload (length a.payload) ++ rest)
        ≡ done a rest
  unfolding udp_ack ack_fields
  udp_ack_reads a rest v = simp append_assoc (
      u32_then nom cf _ a.connection_id (
        verify_then nom _ _ _ _ (le_u32-le_u32 nom cf 0 _) refl (
          verify_then nom _ _ _ _ (le_u32-le_u32 nom cf a.group_id _) (ground (arith, v.group_id)) (
            u32_then nom cf _ a.packet_id (
              u32_then nom cf _ a.maybe_latency (
                verify_then nom _ _ _ _ (le_u32-le_u32 nom cf _ _) (ground (arith, v.size)) (
                  then_reads _ _ _ (ack_payload_reads a.payload rest _ (omega (arith, v.size)))
                    (ground arith))))))))

  udp_data_reads :
      (d : UdpData) (rest : List ℕ)
      → FitsData d
      → udp_data nom crc xml (data_fields cf crc xml d d.payload (length d.payload) ++ rest)
        ≡ done d rest
  unfolding udp_data data_fields
  udp_data_reads d rest v = simp append_assoc (
      u32_then nom cf _ d.connection_id (
        verify_then nom _ _ _ _ (le_u32-le_u32 nom cf 0 _) refl (
          u32_then nom cf _ d.packet_id (
            verify_then nom _ _ _ _ (le_u32-le_u32 nom cf _ _) (ground (arith, v.size))
              (take_then nom _ d.payload _ _ (omega (arith, v.size)) (ground arith))))))

  len_as_u32_small : (n : ℕ) → n ≤ max_bcudp_payload → len_as_u32 n ≡ some n
  unfolding len_as_u32
  len_as_u32_small n h = ground arith

  serialize_disc_writes :
      (d : UdpDiscovery xml.Xml) (v : FitsDisc xml d)
      → serialize_disc cf crc xml d
        ≡ some (bcudp_disc cf crc xml d (encrypt d.tid v.bytes) (length (encrypt d.tid v.bytes)))
  unfolding serialize_disc
  serialize_disc_writes d v =
      rw (v.writes, serialize_disc)
        (rw (
          len_as_u32_small (length (encrypt d.tid v.bytes))
              (omega (arith, v.size, length-encrypt d.tid v.bytes)),
          serialize_disc,
        ))

  -- Every packet whose fields fit is written, and is read back as it was, with whatever follows it in the
  -- buffer left. A discovery packet comes back through its masking and its checksum, where quick_xml
  -- reads back what it wrote.
  pub bcudp-serialize_udp :
      (p : BcUdp xml.Xml) (rest : List ℕ)
      → FitsUdp xml p
      → (bytes : List ℕ) × (serialize_udp cf crc xml p ≡ some bytes)
        × (bcudp nom crc xml (bytes ++ rest) ≡ done p rest)
  unfolding serialize_udp bcudp udp_dispatch bcudp_disc bcudp_ack bcudp_data
  bcudp-serialize_udp (discovery d) rest v = (
    bcudp_disc cf crc xml d (encrypt d.tid v.bytes) (length (encrypt d.tid v.bytes)),
    serialize_disc_writes d v,
    simp append_assoc (
        verify_then nom _ _ _ _ (le_u32-le_u32 nom cf _ _) refl
          (then_reads _ _ _ (udp_disc_reads d v rest) refl)),
  )
  bcudp-serialize_udp (ack a) rest v = (
    bcudp_ack cf crc xml a a.payload (length a.payload),
    rw (len_as_u32_small (length a.payload) v.size, serialize_udp),
    simp append_assoc (
        verify_then nom _ _ _ _ (le_u32-le_u32 nom cf _ _) refl
          (then_reads _ _ _ (udp_ack_reads a rest v) refl)),
  )
  bcudp-serialize_udp (payload_data d) rest v = (
    bcudp_data cf crc xml d d.payload (length d.payload),
    rw (len_as_u32_small (length d.payload) v.size, serialize_udp),
    simp append_assoc (
        verify_then nom _ _ _ _ (le_u32-le_u32 nom cf _ _) refl
          (then_reads _ _ _ (udp_data_reads d rest v) refl)),
  )
