-- ===== src/Bc/Context.antt =====
-- The context of src/baichuan/bc/model.rs, and what the parsers of bc/de.rs decide by it.
use bairelay.Base.{
  ℕ, ◌/◌, ◌%◌, Bool, false, ◌||◌, List, Option, none, some, length, take, min, ◌==◌, if◌then◌else◌,
}
use bairelay.Base.HashMap.{String}
use bairelay.Base.HashSet.{contains}
use bairelay.Bc.Crypto.{EncryptionProtocol, unencrypted, bc_encrypt, aes, full_aes, Credentials}
use bairelay.Bc.Model.{BcHeader}

-- The fields of `LoginUser` and `Encryption` of bc/xml.rs that the codec reads.
pub record LoginUser : Type 0 where
  pub public_key : Option String
  pub session_aes : Option (List ℕ × List ℕ)

pub record Encryption : Type 0 where
  pub nonce : String

-- The trees of bc/xml.rs with the functions that quick_xml derives for them, `none` for its errors, and
-- the fields that the codec reads.
pub record BcXmls : Type 1 where
  pub Extension : Type 0
  pub BcXml : Type 0
  pub try_parse_ext : List ℕ → Option Extension
  pub serialize_ext : Extension → Option (List ℕ)
  pub try_parse_xml : List ℕ → Option BcXml
  pub serialize_xml : BcXml → Option (List ℕ)
  pub binary_data : Extension → Option ℕ
  pub encrypt_len : Extension → Option ℕ
  pub login_user : BcXml → Option LoginUser
  pub encryption : BcXml → Option Encryption

-- `debug`, which only adds traces, is left out.
pub record BcContext : Type 0 where
  pub credentials : Credentials
  pub in_bin_mode : List ℕ
  pub encryption_protocol : EncryptionProtocol

-- "During login the max encryption is BcEncrypt."
unfoldable pub at_most_bc : EncryptionProtocol → EncryptionProtocol
at_most_bc unencrypted = unencrypted
at_most_bc bc_encrypt = bc_encrypt
at_most_bc (aes key iv) = bc_encrypt
at_most_bc (full_aes key iv) = bc_encrypt

-- What the codec writes a message under: a login is never written under AES.
unfoldable pub enc_protocol : EncryptionProtocol → ℕ → EncryptionProtocol
unfolding at_most_bc
enc_protocol protocol msg_id = if msg_id == 1 then at_most_bc protocol else protocol

-- What the payload of a message is encrypted under.
unfoldable pub payload_protocol : BcContext → BcHeader → EncryptionProtocol
unfolding at_most_bc
payload_protocol context header =
    if header.msg_id == 1
    then if header.response_code / 256 % 256 == 0xdd
      then if header.response_code % 256 == 0 then unencrypted else bc_encrypt
      else at_most_bc context.encryption_protocol
    else context.encryption_protocol

-- Under full AES only the leading `encrypted_len` bytes of a binary payload are kept, decrypted.
unfoldable pub binary_payload : EncryptionProtocol → Option ℕ → List ℕ → List ℕ → List ℕ
binary_payload (full_aes key iv) (some encrypted_len) processed raw =
    take (min encrypted_len (length processed)) processed
binary_payload (full_aes key iv) none processed raw = raw
binary_payload (aes key iv) encrypted_len processed raw = raw
binary_payload bc_encrypt encrypted_len processed raw = raw
binary_payload unencrypted encrypted_len processed raw = raw

module _ (xml : BcXmls) where
  open xml use {Extension, binary_data, encrypt_len}

  -- `Extension { binary_data: Some(1), encrypt_len, .. }`
  unfoldable pub in_binary : Option Extension → Bool
  in_binary none = false
  in_binary (some parsed) = elim (binary_data parsed) [ none ↦ false | some on ↦ on == 1 ]

  unfoldable pub encrypted_len : Option Extension → Option ℕ
  unfolding in_binary
  encrypted_len none = none
  encrypted_len (some parsed) = if in_binary (some parsed) then encrypt_len parsed else none

  unfoldable pub is_binary : BcContext → ℕ → Option Extension → Bool
  unfolding contains in_binary
  is_binary context msg_num extension = contains msg_num context.in_bin_mode || in_binary extension
