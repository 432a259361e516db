-- ===== src/Bc/Model.antt =====
-- The messages of src/baichuan/bc/model.rs. A word of w bits is a number below 2 ^ w. `E` and `X` stand for the
-- `Extension` and `BcXml` trees of bc/xml.rs.
use bairelay.Base.{ℕ, Bool, not, List, Option, none, some, ◌==◌, ◌||◌}
use bairelay.Base.HashMap.{String}

abbrev pub magic_header : ℕ
magic_header = 0x0abcdef0

abbrev pub magic_header_rev : ℕ
magic_header_rev = 0x0fedcba0

abbrev pub msg_id_login : ℕ
msg_id_login = 1

pub data BcPayloads (X : Type 0) : Type 0 where
  bc_xml : X → BcPayloads X
  binary : List ℕ → BcPayloads X

pub record ModernMsg (E X : Type 0) : Type 0 where
  pub extension : Option E
  pub payload : Option (BcPayloads X)

pub data LegacyMsg : Type 0 where
  login_msg : (username password : String) → LegacyMsg
  login_upgrade : LegacyMsg
  unknown_msg : LegacyMsg

pub data BcBody (E X : Type 0) : Type 0 where
  legacy_msg : LegacyMsg → BcBody E X
  modern_msg : ModernMsg E X → BcBody E X

pub record BcMeta : Type 0 where
  pub msg_id : ℕ
  pub channel_id : ℕ
  pub stream_type : ℕ
  pub response_code : ℕ
  pub msg_num : ℕ
  pub class : ℕ

pub record BcHeader : Type 0 where
  pub body_len : ℕ
  pub msg_id : ℕ
  pub channel_id : ℕ
  pub stream_type : ℕ
  pub msg_num : ℕ
  pub response_code : ℕ
  pub class : ℕ
  pub payload_offset : Option ℕ

pub record Bc (E X : Type 0) : Type 0 where
  pub meta : BcMeta
  pub body : BcBody E X

unfoldable pub is_modern : BcHeader → Bool
is_modern header = not (header.class == 0x6514)

unfoldable pub to_meta : BcHeader → BcMeta
to_meta header = record {
  msg_id = header.msg_id;
  channel_id = header.channel_id;
  stream_type = header.stream_type;
  response_code = header.response_code;
  msg_num = header.msg_num;
  class = header.class;
}

unfoldable pub from_meta : BcMeta → ℕ → Option ℕ → BcHeader
from_meta meta body_len payload_offset = record {
  body_len = body_len;
  msg_id = meta.msg_id;
  channel_id = meta.channel_id;
  stream_type = meta.stream_type;
  msg_num = meta.msg_num;
  response_code = meta.response_code;
  class = meta.class;
  payload_offset = payload_offset;
}

unfoldable pub has_payload_offset : ℕ → Bool
has_payload_offset class = (class == 0x6414) || (class == 0x0000)

module _ {E X : Type 0} where
  unfoldable pub new_bc : BcMeta → Option E → Option (BcPayloads X) → Bc E X
  new_bc meta extension payload = record {
    meta = meta;
    body = modern_msg (record { extension = extension; payload = payload });
  }

  unfoldable pub new_from_xml : BcMeta → X → Bc E X
  unfolding new_bc
  new_from_xml meta xml = new_bc meta none (some (bc_xml xml))

  unfoldable pub new_from_meta : BcMeta → Bc E X
  unfolding new_bc
  new_from_meta meta = new_bc meta none none
