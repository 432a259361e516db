-- ===== src/Udp/Examples.antt =====
-- The theorems of the UDP codec on concrete packets, with a small checksum and an XML that is its text.
use bairelay.Base.{ℕ, ◌%◌, ◌≡◌, refl, false, List, [], ◌∷◌, ◌++◌, some, length, arith}
use bairelay.Wire.Concrete.{streaming, writer}
use bairelay.Udp.Crypto.{Crc32fast}
use bairelay.Udp.Model.{BcUdp, discovery}
use bairelay.Udp.Parse.{UdpXml}
use bairelay.Udp.Codex.{packet, encode_udp, decode_udp, sort_packet, decode_udp-encode_udp}

abbrev text_length : Crc32fast
text_length = record {
  finalize = λ init payload. length payload % 4294967296;
  finalize_fits = λ init payload. omega arith;
}

abbrev plain_text : UdpXml
plain_text = record {
  Xml = List ℕ;
  try_parse = λ bytes. some bytes;
  serialize = λ x. some x;
  is_r2c_disc = λ x. false;
  is_d2c_disc = λ x. false;
}

abbrev query : BcUdp (List ℕ)
query = discovery (record { tid = 42; payload = 60 ∷ 80 ∷ 62 ∷ [] })

decode_udp-encode_udp_example :
    (bytes : List ℕ) × (encode_udp text_length plain_text writer query (5 ∷ [])
      ≡ some ((5 ∷ []) ++ bytes))
    × (decode_udp text_length plain_text streaming (bytes ++ (9 ∷ [])) ≡ (packet query, 9 ∷ []))
unfolding sort_packet
decode_udp-encode_udp_example =
    decode_udp-encode_udp streaming text_length plain_text writer query (5 ∷ []) (9 ∷ []) (record {
      tid = omega arith;
      bytes = 60 ∷ 80 ∷ 62 ∷ [];
      writes = refl;
      reads = refl;
      size = omega arith;
    })

-- The magic number of an acknowledgement, and nothing more.
abbrev cut_short : List ℕ
cut_short = 0x20 ∷ 0xcf ∷ 0x87 ∷ 0x2a ∷ []
