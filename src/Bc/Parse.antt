-- ===== src/Bc/Parse.antt =====
-- The parsers of src/baichuan/bc/de.rs. Traces are left out.
use bairelay.Base.{
  ℕ, zero, suc, ◌-◌, Bool, true, false, ◌&&◌, ◌||◌, List, [], ◌∷◌, Option, none, some, leb, ltb,
  ◌==◌, if◌then◌else◌,
}
use bairelay.Base.HashMap.{String}
use bairelay.Wire.Parsed.{Parser, ◌>>=◌, ◌>>◌, ok, error, failure}
use bairelay.Wire.Nom.{Nom}
use bairelay.Bc.Crypto.{AesCfb, EncryptionProtocol, unencrypted, bc_encrypt, aes, full_aes, decrypt}
use bairelay.Bc.Model.{
  Bc, BcBody, legacy_msg, modern_msg, LegacyMsg, login_msg, unknown_msg, ModernMsg, BcPayloads,
  bc_xml, binary, BcHeader, is_modern, to_meta, has_payload_offset, magic_header, magic_header_rev,
  msg_id_login,
}
use bairelay.Bc.Context.{
  BcXmls, BcContext, payload_protocol, binary_payload, is_binary, encrypted_len,
}

-- How many bytes follow a lead byte of UTF-8, and the range of the first of them.
unfoldable pub utf8_lead : ℕ → Option (ℕ × ℕ × ℕ)
utf8_lead b =
    if ltb b 0x80
    then some (0, 0x80, 0xbf)
    else if leb 0xc2 b && leb b 0xdf
    then some (1, 0x80, 0xbf)
    else if b == 0xe0
    then some (2, 0xa0, 0xbf)
    else if b == 0xed
    then some (2, 0x80, 0x9f)
    else if leb 0xe1 b && leb b 0xef
    then some (2, 0x80, 0xbf)
    else if b == 0xf0
    then some (3, 0x90, 0xbf)
    else if leb 0xf1 b && leb b 0xf3
    then some (3, 0x80, 0xbf)
    else if b == 0xf4
    then some (3, 0x80, 0x8f)
    else none

unfoldable pub utf8_rest : ℕ → ℕ → ℕ → List ℕ → Bool
utf8_rest zero lo hi [] = true
utf8_rest (suc n) lo hi [] = false
utf8_rest zero lo hi (b ∷ s) = elim (utf8_lead b) [
  | none ↦ false
  | some (n, l, h) ↦ utf8_rest n l h s
]
utf8_rest (suc n) lo hi (b ∷ s) = leb lo b && leb b hi && utf8_rest n 0x80 0xbf s

-- `String::from_utf8`
unfoldable pub from_utf8 : List ℕ → Option String
unfolding utf8_rest
from_utf8 slice = if utf8_rest 0 0x80 0xbf slice then some slice else none

abbrev pub max_bc_body_len : ℕ
max_bc_body_len = 8388608

abbrev pub is_magic : ℕ → Bool
is_magic x = (x == magic_header) || (x == magic_header_rev)

abbrev pub fits_body : ℕ → Bool
fits_body n = leb n max_bc_body_len

abbrev pub unwrap_or_default : Option ℕ → ℕ
unwrap_or_default none = 0
unwrap_or_default (some n) = n

module _ (nom : Nom) where
  open nom use {le_u8, le_u16, le_u32, verify}

  -- `cond(has_payload_offset(class), le_u32)`
  unfoldable pub offset_word : ℕ → Parser (Option ℕ)
  offset_word class =
      if has_payload_offset class
      then (do payload_offset ← le_u32; ok (some payload_offset))
      else ok none

  unfoldable pub bc_header : Parser BcHeader
  bc_header = do
    verify le_u32 is_magic
    msg_id ← le_u32
    body_len ← verify le_u32 fits_body
    channel_id ← le_u8
    stream_type ← le_u8
    msg_num ← le_u16
    response_code ← le_u16
    class ← le_u16
    payload_offset ← offset_word class
    ok (record {
      body_len = body_len;
      msg_id = msg_id;
      channel_id = channel_id;
      stream_type = stream_type;
      msg_num = msg_num;
      response_code = response_code;
      class = class;
      payload_offset = payload_offset;
    })

  unfoldable pub text_of : List ℕ → Parser String
  text_of slice = elim (from_utf8 slice) [ none ↦ λ buf. error | some text ↦ ok text ]

  unfoldable pub hex32 : Parser String
  unfolding text_of
  hex32 = nom.take 32 >>= text_of

  unfoldable pub bc_legacy_login_msg : Parser LegacyMsg
  bc_legacy_login_msg = do username ← hex32; password ← hex32; ok (login_msg username password)

-- The arguments that the functions of a message's body share.
module _ (nom : Nom) (cfb : AesCfb) (xml : BcXmls) where
  open xml use {Extension, BcXml, try_parse_ext, try_parse_xml}

  unfoldable pub processed_ext_buf : EncryptionProtocol → ℕ → List ℕ → List ℕ
  processed_ext_buf unencrypted channel_id ext_buf = ext_buf
  processed_ext_buf bc_encrypt channel_id ext_buf = decrypt cfb bc_encrypt channel_id ext_buf
  processed_ext_buf (aes key iv) channel_id ext_buf = decrypt cfb (aes key iv) channel_id ext_buf
  processed_ext_buf (full_aes key iv) channel_id ext_buf =
      decrypt cfb (full_aes key iv) channel_id ext_buf

  unfoldable pub parse_extension : BcContext → BcHeader → ℕ → List ℕ → Parser (Option Extension)
  unfolding processed_ext_buf
  parse_extension context header ext_len ext_buf =
      if ltb 0 ext_len
      then (elim (try_parse_ext
          (processed_ext_buf context.encryption_protocol header.channel_id ext_buf)) [
            | none ↦ λ buf. error
            | some parsed ↦ ok (some parsed)
          ])
      else ok none

  unfoldable pub parse_payload :
      BcContext → BcHeader → Option Extension → ℕ → List ℕ → Parser (Option (BcPayloads BcXml))
  unfolding payload_protocol binary_payload is_binary encrypted_len
  parse_payload context header extension payload_len payload_buf =
      let processed = decrypt cfb (payload_protocol context header) header.channel_id payload_buf in
      if ltb 0 payload_len
      then if is_binary xml context header.msg_num extension
        then ok (
            some (
              binary (
                binary_payload context.encryption_protocol (encrypted_len xml extension) processed
                  payload_buf)))
        else (elim (try_parse_xml processed) [
          | none ↦ λ buf. error
          | some tree ↦ ok (some (bc_xml tree))
        ])
      else ok none

  unfoldable pub bc_modern_msg : BcContext → BcHeader → Parser (ModernMsg Extension BcXml)
  bc_modern_msg context header =
      let ext_len = unwrap_or_default header.payload_offset in
      if ltb header.body_len ext_len then (λ buf. failure) else (do
        ext_buf ← nom.take ext_len
        payload_buf ← nom.take (header.body_len - ext_len)
        extension ← parse_extension context header ext_len ext_buf
        payload ← parse_payload context header extension (header.body_len - ext_len) payload_buf
        ok (record { extension = extension; payload = payload }))

  unfoldable pub bc_body : BcContext → BcHeader → Parser (BcBody Extension BcXml)
  bc_body context header =
      if is_modern header
      then (do body ← bc_modern_msg context header; ok (modern_msg body))
      else if header.msg_id == msg_id_login
      then (do body ← bc_legacy_login_msg nom; ok (legacy_msg body))
      else ok (legacy_msg unknown_msg)

  unfoldable pub bc_msg : BcContext → Parser (Bc Extension BcXml)
  bc_msg context = do
    header ← bc_header nom
    body ← bc_body context header
    ok (record { meta = to_meta header; body = body })
