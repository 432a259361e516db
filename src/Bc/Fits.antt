-- ===== src/Bc/Fits.antt =====
-- The Baichuan messages that can be read back, and the round trip of their header.
use bairelay.Base.{
  ℕ, ◌+◌, ◌/◌, ◌≤◌, ◌<◌, ◌≡◌, ◌≢◌, refl, ap, true, false, List, [], ◌++◌, append_assoc, Option,
  none, some, length, arith,
}
use bairelay.Wire.Parsed.{done, then_reads}
use bairelay.Wire.Nom.{Nom}
use bairelay.Wire.CookieFactory.{CookieFactory}
use bairelay.Wire.Words.{u8_then, u16_then, u32_then, verify_then, le_u32-le_u32}
use bairelay.Bc.Model.{ModernMsg, BcPayloads, bc_xml, binary, BcMeta, from_meta, has_payload_offset}
use bairelay.Bc.Context.{BcXmls, BcContext, is_binary, encrypted_len}
use bairelay.Bc.Parse.{max_bc_body_len, offset_word, bc_header}
use bairelay.Bc.Print.{opt_u32, header_bytes}

abbrev pub FitsOffset : ℕ → Option ℕ → Type 0
FitsOffset class none = has_payload_offset class ≡ false
FitsOffset class (some n) = (has_payload_offset class ≡ true) × (n < 4294967296)

pub record FitsMeta (meta : BcMeta) : Type 0 where
  pub msg_id : meta.msg_id < 4294967296
  pub channel_id : meta.channel_id < 256
  pub stream_type : meta.stream_type < 256
  pub response_code : meta.response_code < 65536
  pub msg_num : meta.msg_num < 65536
  pub class : meta.class < 65536

-- An extension that quick_xml writes as these bytes and reads back; a login carries none.
abbrev pub FitsExt : (xml : BcXmls) → BcMeta → Option xml.Extension → List ℕ → Type 0
FitsExt xml meta none bytes = bytes ≡ []
FitsExt xml meta (some ext) bytes =
    (xml.serialize_ext ext ≡ some bytes)
    × (xml.try_parse_ext bytes ≡ some ext)
    × (0 < length bytes)
    × (has_payload_offset meta.class ≡ true)
    × (meta.msg_id ≢ 1)

-- A payload is binary where the reader takes it as binary, with no part of it to be decrypted.
abbrev pub FitsPayload :
    (xml : BcXmls)
    → BcContext
    → BcMeta
    → Option xml.Extension
    → Option (BcPayloads xml.BcXml)
    → List ℕ
    → Type 0
FitsPayload xml context meta ext none bytes = bytes ≡ []
FitsPayload xml context meta ext (some (bc_xml tree)) bytes =
    (xml.serialize_xml tree ≡ some bytes)
    × (xml.try_parse_xml bytes ≡ some tree)
    × (0 < length bytes)
    × (is_binary xml context meta.msg_num ext ≡ false)
FitsPayload xml context meta ext (some (binary raw)) bytes =
    (bytes ≡ raw)
    × (0 < length bytes)
    × (is_binary xml context meta.msg_num ext ≡ true)
    × (encrypted_len xml ext ≡ none)

pub record FitsModern (xml : BcXmls) (context : BcContext) (meta : BcMeta)
    (modern : ModernMsg xml.Extension xml.BcXml) : Type 0 where
  pub fields : FitsMeta meta
  pub modern_class : meta.class ≢ 0x6514
  pub no_negotiation : meta.msg_id ≡ 1 → meta.response_code / 256 ≢ 0xdd
  pub ext_bytes : List ℕ
  pub ext : FitsExt xml meta modern.extension ext_bytes
  pub payload_bytes : List ℕ
  pub payload : FitsPayload xml context meta modern.extension modern.payload payload_bytes
  pub size : length ext_bytes + length payload_bytes ≤ max_bc_body_len

module _ (nom : Nom) (cf : CookieFactory) where
  offset_word_reads :
      (class : ℕ) (offset : Option ℕ) (rest : List ℕ)
      → FitsOffset class offset
      → offset_word nom class (opt_u32 cf offset ++ rest) ≡ done offset rest
  unfolding offset_word opt_u32
  offset_word_reads class none rest v = rw v refl
  offset_word_reads class (some n) rest (v, fits) =
      rw v (u32_then nom cf _ n (ap (λ k. done (some k) rest) (omega (arith, fits))))

  offset_word_reads_at :
      {c class : ℕ} (offset : Option ℕ) (rest : List ℕ)
      → c ≡ class
      → FitsOffset class offset
      → offset_word nom c (opt_u32 cf offset ++ rest) ≡ done offset rest
  offset_word_reads_at {class = class} offset rest e v =
      rw e (offset_word_reads class offset rest v)

  pub bc_header_reads :
      (meta : BcMeta) (body_len : ℕ) (offset : Option ℕ) (rest : List ℕ)
      → FitsMeta meta
      → body_len ≤ max_bc_body_len
      → FitsOffset meta.class offset
      → bc_header nom (header_bytes cf (from_meta meta body_len offset) ++ rest)
        ≡ done (from_meta meta body_len offset) rest
  unfolding bc_header header_bytes from_meta
  bc_header_reads meta body_len offset rest v small o = simp append_assoc (
      verify_then nom _ _ _ _ (le_u32-le_u32 nom cf _ _) refl (
        u32_then nom cf _ meta.msg_id (
          verify_then nom _ _ _ _ (le_u32-le_u32 nom cf body_len _) (ground (arith, small)) (
            u8_then nom cf _ meta.channel_id (
              u8_then nom cf _ meta.stream_type (
                u16_then nom cf _ meta.msg_num (
                  u16_then nom cf _ meta.response_code (
                    u16_then nom cf _ meta.class (
                      then_reads _ _ _ (offset_word_reads_at offset rest (omega (arith, v.class)) o)
                        (ground (
                          arith, v.msg_id, v.channel_id, v.stream_type, v.response_code, v.msg_num,
                          v.class,
                        )))))))))))
