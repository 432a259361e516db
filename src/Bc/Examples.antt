-- ===== src/Bc/Examples.antt =====
-- The theorems of the Baichuan codec on concrete messages, with XML trees that are their text.
use bairelay.Base.{
  ℕ, ◌<◌, ◌≡◌, refl, true, List, [], ◌∷◌, ◌++◌, Option, none, some, length, replicate, ◌==◌,
  if◌then◌else◌, arith,
}
use bairelay.Wire.Parsed.{◌>>=◌}
use bairelay.Wire.Concrete.{streaming, writer}
use bairelay.Bc.Crypto.{AesCfb, Md5, bc_encrypt, full_aes_with_iv}
use bairelay.Bc.Model.{
  Bc, BcMeta, legacy_msg, login_msg, ModernMsg, binary, has_payload_offset, new_bc, new_from_xml,
  new_from_meta,
}
use bairelay.Base.HashSet.{contains}
use bairelay.Bc.Context.{BcXmls, LoginUser, is_binary, encrypted_len, in_binary}
use bairelay.Bc.Parse.{from_utf8, utf8_rest, utf8_lead, bc_msg, bc_header}
use bairelay.Bc.Codex.{
  BcCodex, frame, malformed, new_codex, signed_login_aes, signed_user, arm, encode, decode, outcome,
  settle, switch_binary, resolve_pending, on_off,
}
use bairelay.Bc.Codex.Framing.{decode-encode, decode_bound}
use bairelay.Bc.Codex.Session.{settle_all, last_said, settle-encode, contains-settle_all}
use bairelay.Bc.Codex.Legacy.{decode-encode_legacy}

-- A cipher that does nothing, and a digest of zeros.
abbrev plain_cfb : AesCfb
plain_cfb = record {
  encrypt_cfb = λ key iv buf. buf;
  decrypt_cfb = λ key iv buf. buf;
  decrypt-encrypt_cfb = λ key iv buf. refl;
  length-encrypt_cfb = λ key iv buf. refl;
}

abbrev zero_md5 : Md5
zero_md5 = record { compute = λ phrase. replicate 32 0x30; length-compute = λ phrase. refl }

abbrev first_byte : List ℕ → Option ℕ
first_byte [] = none
first_byte (b ∷ text) = some b

-- An XML that starts with the byte 7 is a signed login.
abbrev signed_text : List ℕ → Option LoginUser
signed_text [] = none
signed_text (b ∷ text) =
    if b == 7
    then some (record { public_key = some (1 ∷ []); session_aes = some (2 ∷ [], 3 ∷ []) })
    else none

-- The first byte of an extension is its `binary_data`.
abbrev texts : BcXmls
texts = record {
  Extension = List ℕ;
  BcXml = List ℕ;
  try_parse_ext = λ text. some text;
  serialize_ext = λ text. some text;
  try_parse_xml = λ text. some text;
  serialize_xml = λ text. some text;
  binary_data = first_byte;
  encrypt_len = λ text. none;
  login_user = signed_text;
  encryption = λ text. none;
}

abbrev start : BcCodex
start = new_codex (record { username = []; password = none })

abbrev meta_of : ℕ → ℕ → ℕ → ℕ → BcMeta
meta_of msg_id msg_num response_code class = record {
  msg_id = msg_id;
  channel_id = 5;
  stream_type = 0;
  response_code = response_code;
  msg_num = msg_num;
  class = class;
}

abbrev stream_part : ModernMsg (List ℕ) (List ℕ)
stream_part = record { extension = some (1 ∷ 60 ∷ []); payload = some (binary (9 ∷ 8 ∷ [])) }

abbrev stream_msg : Bc (List ℕ) (List ℕ)
stream_msg = new_bc (meta_of 3 12 200 0) stream_part.extension stream_part.payload

abbrev signed_login : Bc (List ℕ) (List ℕ)
signed_login = new_from_xml (meta_of 1 40 0 0x6414) (7 ∷ [])

abbrev accepted : Bc (List ℕ) (List ℕ)
accepted = new_from_meta (meta_of 1 40 200 0)

decode-encode_example :
    (bytes : List ℕ) × (encode texts plain_cfb writer start stream_msg (4 ∷ [])
      ≡ (arm texts start stream_msg, some ((4 ∷ []) ++ bytes)))
    × (decode texts streaming plain_cfb zero_md5 start (bytes ++ (6 ∷ [])) ≡ (
      (
        frame stream_msg,
        switch_binary texts (resolve_pending start (meta_of 3 12 200 0)) stream_msg,
      ),
      6 ∷ [],
    ))
unfolding arm signed_login_aes has_payload_offset is_binary in_binary contains encrypted_len
    new_codex new_bc
decode-encode_example =
    decode-encode streaming plain_cfb texts zero_md5 writer start start (meta_of 3 12 200 0)
      stream_part (4 ∷ []) (6 ∷ []) refl
      (record {
        fields = record {
          msg_id = omega arith;
          channel_id = omega arith;
          stream_type = omega arith;
          response_code = omega arith;
          msg_num = omega arith;
          class = omega arith;
        };
        modern_class = λ e. absurd (omega arith);
        no_negotiation = λ e. absurd (omega arith);
        ext_bytes = 1 ∷ 60 ∷ [];
        ext = (refl, refl, omega arith, refl, λ e. absurd (omega arith));
        payload_bytes = 9 ∷ 8 ∷ [];
        payload = (refl, omega arith, refl, refl);
        size = omega arith;
      })

-- The magic number, and nothing more.
abbrev cut_short : List ℕ
cut_short = 0xf0 ∷ 0xde ∷ 0xbc ∷ 0x0a ∷ []

decode_bound_example : length cut_short < 8388632
unfolding decode outcome bc_msg bc_header ◌>>=◌
decode_bound_example = decode_bound streaming plain_cfb texts zero_md5 start cut_short refl

settle-encode_example :
    let waiting =
      settle_all texts zero_md5
        (encode texts plain_cfb writer start signed_login []).0
        (stream_msg ∷ []) in
    let after = (settle texts zero_md5 waiting accepted).1 in
    (waiting.context.encryption_protocol ≡ bc_encrypt)
    × (after.context.encryption_protocol ≡ full_aes_with_iv (2 ∷ []) (3 ∷ []))
    × (after.pending_session_aes ≡ none)
unfolding signed_login_aes signed_user new_bc new_from_xml new_from_meta
settle-encode_example =
    settle-encode texts zero_md5 plain_cfb writer start signed_login accepted [] (2 ∷ []) (3 ∷ [])
      (stream_msg ∷ []) refl (λ e. absurd (omega arith), tt) refl refl (λ e. absurd (omega arith))

contains-settle_all_example :
    contains 12 (settle_all texts zero_md5 start (stream_msg ∷ [])).context.in_bin_mode ≡ true
unfolding last_said on_off new_bc
contains-settle_all_example =
    contains-settle_all texts zero_md5 12 start (stream_msg ∷ []) (λ e. absurd (omega arith), tt)

abbrev name : List ℕ
name = replicate 32 0x41

abbrev legacy_login : Bc (List ℕ) (List ℕ)
legacy_login = record { meta = meta_of 1 2 0 0x6514; body = legacy_msg (login_msg name name) }

decode-encode_legacy_example :
    (bytes : List ℕ) × (encode texts plain_cfb writer start legacy_login [] ≡ (start, some bytes))
    × (let d = decode texts streaming plain_cfb zero_md5 start (bytes ++ (5 ∷ [])) in
        (d.0.0 ≡ frame legacy_login)
        × (d.1 ≡ replicate 1772 0 ++ (5 ∷ []))
        × ((decode texts streaming plain_cfb zero_md5 d.0.1 d.1).0.0 ≡ malformed))
unfolding from_utf8 utf8_lead utf8_rest
decode-encode_legacy_example =
    decode-encode_legacy streaming writer plain_cfb texts zero_md5 start start
      (meta_of 1 2 0 0x6514) name name (5 ∷ [])
      (record {
        fields = record {
          msg_id = omega arith;
          channel_id = omega arith;
          stream_type = omega arith;
          response_code = omega arith;
          msg_num = omega arith;
          class = omega arith;
        };
        legacy_class = refl;
        login = refl;
        no_negotiation = λ e. absurd (omega arith);
        username_size = refl;
        username_text = refl;
        password_size = refl;
        password_text = refl;
      })
