-- ===== src/Bc/Print.antt =====
-- The writers of src/baichuan/bc/ser.rs. `none` is an `Err`; the number inside it and the traces are left out.
use bairelay.Base.{
  ℕ, ◌%◌, ◌&&◌, List, [], ◌++◌, Option, none, some, length, replicate, ◌==◌, if◌then◌else◌,
}
use bairelay.Wire.CookieFactory.{CookieFactory}
use bairelay.Bc.Crypto.{AesCfb, EncryptionProtocol, encrypt}
use bairelay.Bc.Model.{
  Bc, BcBody, legacy_msg, modern_msg, LegacyMsg, login_msg, login_upgrade, unknown_msg, BcPayloads,
  bc_xml, binary, BcMeta, BcHeader, from_meta, has_payload_offset, magic_header,
}
use bairelay.Bc.Context.{BcXmls}

unfoldable pub bc_legacy : LegacyMsg → Option (List ℕ)
bc_legacy (login_msg username password) =
    if (length username == 32) && (length password == 32)
    then some (username ++ (password ++ replicate 1772 0))
    else none
bc_legacy login_upgrade = some []
bc_legacy unknown_msg = none

module _ (cf : CookieFactory) where
  open cf use {le_u8, le_u16, le_u32}

  -- `opt(header.payload_offset, le_u32)`
  unfoldable pub opt_u32 : Option ℕ → List ℕ
  opt_u32 none = []
  opt_u32 (some n) = le_u32 n

  unfoldable pub header_bytes : BcHeader → List ℕ
  header_bytes header =
      le_u32 magic_header
      ++ (le_u32 header.msg_id
          ++ (le_u32 header.body_len
              ++ (le_u8 header.channel_id
                  ++ (le_u8 header.stream_type
                      ++ (le_u16 header.msg_num
                          ++ (le_u16 header.response_code
                              ++ (le_u16 header.class ++ opt_u32 header.payload_offset)))))))

module _ (cfb : AesCfb) (xml : BcXmls) where
  open xml use {Extension, BcXml, serialize_ext, serialize_xml}

  -- An extension is encrypted and takes no bytes where it is missing.
  unfoldable pub bc_ext_bytes : EncryptionProtocol → ℕ → Option Extension → Option (List ℕ)
  bc_ext_bytes protocol enc_offset none = some []
  bc_ext_bytes protocol enc_offset (some ext) = elim (serialize_ext ext) [
    | none ↦ none
    | some bytes ↦ some (encrypt cfb protocol enc_offset bytes)
  ]

  -- So is a payload, where it is XML; a binary one is written as it is.
  unfoldable pub bc_payload_bytes :
      EncryptionProtocol → ℕ → Option (BcPayloads BcXml) → Option (List ℕ)
  bc_payload_bytes protocol enc_offset none = some []
  bc_payload_bytes protocol enc_offset (some (bc_xml tree)) = elim (serialize_xml tree) [
    | none ↦ none
    | some bytes ↦ some (encrypt cfb protocol enc_offset bytes)
  ]
  bc_payload_bytes protocol enc_offset (some (binary bytes)) = some bytes

  unfoldable pub payload_offset_of : ℕ → Option Extension → ℕ → Option ℕ
  payload_offset_of class none ext_len = if has_payload_offset class then some 0 else none
  payload_offset_of class (some ext) ext_len =
      if has_payload_offset class then some (ext_len % 4294967296) else none

  -- The bytes of the body and the offset of the payload in them.
  unfoldable pub body_bytes :
      EncryptionProtocol → BcMeta → BcBody Extension BcXml → Option (List ℕ × Option ℕ)
  unfolding payload_offset_of
  body_bytes protocol meta (modern_msg modern) =
      elim (bc_ext_bytes protocol meta.channel_id modern.extension) [
        | none ↦ none
        | some ext_bytes ↦ elim (bc_payload_bytes protocol meta.channel_id modern.payload) [
          | none ↦ none
          | some payload_bytes ↦ some (
            ext_bytes ++ payload_bytes,
            payload_offset_of meta.class modern.extension (length ext_bytes),
          )
        ]
      ]
  body_bytes protocol meta (legacy_msg legacy) = elim (bc_legacy legacy) [
    | none ↦ none
    | some bytes ↦ some (bytes, none)
  ]

  unfoldable pub serialize_bc :
      CookieFactory → Bc Extension BcXml → EncryptionProtocol → Option (List ℕ)
  unfolding body_bytes
  serialize_bc cf bc protocol = elim (body_bytes protocol bc.meta bc.body) [
    | none ↦ none
    | some (body_buf, payload_offset) ↦ some (
        header_bytes cf (from_meta bc.meta (length body_buf % 4294967296) payload_offset)
        ++ body_buf)
  ]
