-- ===== src/Bc/Codex.antt =====
-- The codec of src/baichuan/bc/codex.rs, with the part of its context in bc/model.rs that it writes.
pub mod Framing
pub mod Session
pub mod Legacy
use bairelay.Base.{
  ℕ, ◌/◌, ◌%◌, ◌<◌, ◌≤◌, ◌≡◌, ◌≢◌, refl, sym, ap, ◌∙◌, Bool, true, false, ◌&&◌, List, [], ◌∷◌, ◌++◌,
  Option, none, some, length, leb, ◌==◌, if◌then◌else◌, Bool-cases, Option-cases, inl, inr, arith,
}
use bairelay.Base.HashMap.{String}
use bairelay.Base.HashSet.{insert, remove}
use bairelay.Wire.Parsed.{Parsed, done, incomplete, error, failure}
use bairelay.Wire.Nom.{Nom}
use bairelay.Wire.CookieFactory.{CookieFactory}
use bairelay.Bc.Crypto.{
  AesCfb, Md5, EncryptionProtocol, unencrypted, bc_encrypt, new_aes, new_full_aes, full_aes_with_iv,
  Credentials, make_aeskey,
}
use bairelay.Bc.Model.{
  Bc, BcBody, legacy_msg, modern_msg, LegacyMsg, ModernMsg, BcPayloads, bc_xml, binary, BcMeta,
}
use bairelay.Bc.Context.{BcXmls, BcContext, LoginUser, Encryption, enc_protocol}
use bairelay.Bc.Parse.{bc_msg}
use bairelay.Bc.Print.{serialize_bc}

-- The pending AES of a signed login: its `msg_num`, the key and the vector.
pub record BcCodex : Type 0 where
  pub context : BcContext
  pub pending_session_aes : Option (ℕ × List ℕ × List ℕ)

unfoldable pub new_context : Credentials → BcContext
new_context credentials = record {
  credentials = credentials;
  in_bin_mode = [];
  encryption_protocol = unencrypted;
}

unfoldable pub new_codex : Credentials → BcCodex
unfolding new_context
new_codex credentials = record { context = new_context credentials; pending_session_aes = none }

unfoldable pub set_encrypted : EncryptionProtocol → BcContext → BcContext
set_encrypted protocol context = record {
  credentials = context.credentials;
  in_bin_mode = context.in_bin_mode;
  encryption_protocol = protocol;
}

unfoldable pub binary_on : ℕ → BcContext → BcContext
unfolding insert
binary_on n context = record {
  credentials = context.credentials;
  in_bin_mode = insert n context.in_bin_mode;
  encryption_protocol = context.encryption_protocol;
}

unfoldable pub binary_off : ℕ → BcContext → BcContext
unfolding remove
binary_off n context = record {
  credentials = context.credentials;
  in_bin_mode = remove n context.in_bin_mode;
  encryption_protocol = context.encryption_protocol;
}

-- `Ok(Some(bc))`, `Ok(None)`, and the errors.
pub data Decoded (E X : Type 0) : Type 0 where
  frame : Bc E X → Decoded E X
  no_frame : Decoded E X
  malformed : Decoded E X
  unknown_encryption : ℕ → Decoded E X

-- The protocols that the low byte of a login reply stands for.
unfoldable pub negotiated : Md5 → Credentials → String → ℕ → Option EncryptionProtocol
negotiated md5 credentials nonce byte =
    if byte == 0x00
    then some unencrypted
    else if byte == 0x01
    then some bc_encrypt
    else if byte == 0x02
    then some (new_aes (make_aeskey md5 credentials nonce))
    else if byte == 0x12
    then some (new_full_aes (make_aeskey md5 credentials nonce))
    else none

-- sigV3: the reply to the signed login resolves the pending AES, accepted or not.
unfoldable pub resolve_pending : BcCodex → BcMeta → BcCodex
unfolding set_encrypted
resolve_pending codex meta = elim codex.pending_session_aes [
  | none ↦ codex
  | some (msg_num, key, iv) ↦
      if (meta.msg_id == 1) && (meta.msg_num == msg_num)
      then record {
        context =
            if meta.response_code == 200
            then set_encrypted (full_aes_with_iv key iv) codex.context
            else codex.context;
        pending_session_aes = none;
      }
      else codex
]

module _ (xml : BcXmls) where
  open xml use {Extension, BcXml, binary_data, login_user, encryption}

  -- `lu.session_aes` of a `LoginUser` that has a `publicKey`.
  unfoldable pub signed_user : Option LoginUser → Option (Option (List ℕ × List ℕ))
  signed_user none = none
  signed_user (some lu) = elim lu.public_key [ none ↦ none | some key ↦ some lu.session_aes ]

  unfoldable pub signed_login_aes : BcBody Extension BcXml → Option (Option (List ℕ × List ℕ))
  unfolding signed_user
  signed_login_aes (legacy_msg legacy) = none
  signed_login_aes (modern_msg modern) = elim modern.payload [
    | none ↦ none
    | some (bc_xml tree) ↦ signed_user (login_user tree)
    | some (binary bytes) ↦ none
  ]

  -- A signed login pins the session to BCEncrypt and arms the switch to AES.
  unfoldable pub arm : BcCodex → Bc Extension BcXml → BcCodex
  unfolding signed_login_aes set_encrypted
  arm codex item = elim (signed_login_aes item.body) [
    | none ↦ codex
    | some none ↦ record {
      context = set_encrypted bc_encrypt codex.context;
      pending_session_aes = none;
    }
    | some (some (key, iv)) ↦ record {
      context = set_encrypted bc_encrypt codex.context;
      pending_session_aes = some (item.meta.msg_num, key, iv);
    }
  ]

  -- The codec after the call, and the buffer where it is no error.
  unfoldable pub encode :
      AesCfb → CookieFactory → BcCodex → Bc Extension BcXml → List ℕ → BcCodex × Option (List ℕ)
  unfolding arm
  encode cfb cf codex item dst =
      let armed = arm codex item in
      (
        armed,
        elim (serialize_bc cfb xml cf item
            (enc_protocol armed.context.encryption_protocol item.meta.msg_id)) [
              | none ↦ none
              | some buf ↦ some (dst ++ buf)
            ],
      )

  -- `xml.encryption` of a modern message with an XML payload.
  unfoldable pub encryption_of : BcBody Extension BcXml → Option Encryption
  encryption_of (legacy_msg legacy) = none
  encryption_of (modern_msg modern) = elim modern.payload [
    | none ↦ none
    | some (bc_xml tree) ↦ encryption tree
    | some (binary bytes) ↦ none
  ]

  -- What a login reply with the encryption info sets, or that it is unknown.
  unfoldable pub negotiate : Md5 → BcCodex → Bc Extension BcXml → Decoded Extension BcXml × BcCodex
  unfolding encryption_of negotiated set_encrypted
  negotiate md5 codex bc =
      if bc.meta.msg_id == 1
      then (elim (encryption_of bc.body) [
        | none ↦ (frame bc, codex)
        | some info ↦
            if bc.meta.response_code / 256 == 0xdd
            then (elim (negotiated md5 codex.context.credentials info.nonce
                (bc.meta.response_code % 256)) [
                  | none ↦ (unknown_encryption (bc.meta.response_code % 256), codex)
                  | some protocol ↦ (
                    frame bc,
                    record {
                      context = set_encrypted protocol codex.context;
                      pending_session_aes = codex.pending_session_aes;
                    },
                  )
                ])
            else (frame bc, codex)
      ])
      else (frame bc, codex)

  -- `binary_data` of the extension of a modern message.
  unfoldable pub on_off : BcBody Extension BcXml → Option ℕ
  on_off (legacy_msg legacy) = none
  on_off (modern_msg modern) = elim modern.extension [ none ↦ none | some ext ↦ binary_data ext ]

  unfoldable pub switch_binary : BcCodex → Bc Extension BcXml → BcCodex
  unfolding on_off binary_on binary_off
  switch_binary codex bc = elim (on_off bc.body) [
    | none ↦ codex
    | some n ↦ record {
      context =
          if n == 0
          then binary_off bc.meta.msg_num codex.context
          else binary_on bc.meta.msg_num codex.context;
      pending_session_aes = codex.pending_session_aes;
    }
  ]

  -- After an unknown encryption `decode` returns at once.
  unfoldable pub finish :
      Bc Extension BcXml → Decoded Extension BcXml × BcCodex → Decoded Extension BcXml × BcCodex
  unfolding switch_binary
  finish bc (frame b, next) = (frame b, switch_binary next bc)
  finish bc (no_frame, next) = (no_frame, next)
  finish bc (malformed, next) = (malformed, next)
  finish bc (unknown_encryption n, next) = (unknown_encryption n, next)

  -- What `decode` does with a message.
  unfoldable pub settle : Md5 → BcCodex → Bc Extension BcXml → Decoded Extension BcXml × BcCodex
  unfolding resolve_pending negotiate finish
  settle md5 codex bc = finish bc (negotiate md5 (resolve_pending codex bc.meta) bc)

  -- The `match` on what `Bc::deserialize` made of `src`, with the bytes that are left in it.
  unfoldable pub outcome :
      Md5
      → BcCodex
      → Parsed (Bc Extension BcXml)
      → List ℕ
      → (Decoded Extension BcXml × BcCodex) × List ℕ
  unfolding settle
  outcome md5 codex (done bc rest) src = (settle md5 codex bc, rest)
  outcome md5 codex incomplete src = ((no_frame, codex), src)
  outcome md5 codex error src = ((malformed, codex), src)
  outcome md5 codex failure src = ((malformed, codex), src)

  -- `decode`; at the end of the stream `decode_eof` does the same, a rest of the buffer included.
  unfoldable pub decode :
      Nom → AesCfb → Md5 → BcCodex → List ℕ → (Decoded Extension BcXml × BcCodex) × List ℕ
  unfolding outcome
  decode nom cfb md5 codex src = outcome md5 codex (bc_msg nom cfb xml codex.context src) src
