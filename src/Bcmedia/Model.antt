-- ===== src/Bcmedia/Model.antt =====
-- The types and magic numbers of src/baichuan/bcmedia/model.rs. A u8, u16 or u32 is a number, whose
-- range the predicates below state where a theorem needs it.
use bairelay.Base.{ℕ, ◌+◌, ◌<◌, ◌≤◌, List, Option, none, some, length}

abbrev pub magic_header_bcmedia_info_v1 : ℕ
magic_header_bcmedia_info_v1 = 0x31303031

abbrev pub magic_header_bcmedia_info_v2 : ℕ
magic_header_bcmedia_info_v2 = 0x32303031

abbrev pub magic_header_bcmedia_iframe : ℕ
magic_header_bcmedia_iframe = 0x63643030

abbrev pub magic_header_bcmedia_iframe_last : ℕ
magic_header_bcmedia_iframe_last = 0x63643039

abbrev pub magic_header_bcmedia_pframe : ℕ
magic_header_bcmedia_pframe = 0x63643130

abbrev pub magic_header_bcmedia_pframe_last : ℕ
magic_header_bcmedia_pframe_last = 0x63643139

abbrev pub magic_header_bcmedia_aac : ℕ
magic_header_bcmedia_aac = 0x62773530

abbrev pub magic_header_bcmedia_adpcm : ℕ
magic_header_bcmedia_adpcm = 0x62773130

abbrev pub magic_header_bcmedia_adpcm_data : ℕ
magic_header_bcmedia_adpcm_data = 0x0100

pub record BcMediaInfoV1 : Type 0 where
  pub video_width : ℕ
  pub video_height : ℕ
  pub fps : ℕ
  pub start_year : ℕ
  pub start_month : ℕ
  pub start_day : ℕ
  pub start_hour : ℕ
  pub start_min : ℕ
  pub start_seconds : ℕ
  pub end_year : ℕ
  pub end_month : ℕ
  pub end_day : ℕ
  pub end_hour : ℕ
  pub end_min : ℕ
  pub end_seconds : ℕ

pub record BcMediaInfoV2 : Type 0 where
  pub video_width : ℕ
  pub video_height : ℕ
  pub fps : ℕ
  pub start_year : ℕ
  pub start_month : ℕ
  pub start_day : ℕ
  pub start_hour : ℕ
  pub start_min : ℕ
  pub start_seconds : ℕ
  pub end_year : ℕ
  pub end_month : ℕ
  pub end_day : ℕ
  pub end_hour : ℕ
  pub end_min : ℕ
  pub end_seconds : ℕ

pub data VideoType : Type 0 where
  h264 h265 : VideoType

pub record BcMediaIframe : Type 0 where
  pub video_type : VideoType
  pub microseconds : ℕ
  pub time : Option ℕ
  pub payload : List ℕ

pub record BcMediaPframe : Type 0 where
  pub video_type : VideoType
  pub microseconds : ℕ
  pub payload : List ℕ

pub record BcMediaAac : Type 0 where
  pub payload : List ℕ

pub record BcMediaAdpcm : Type 0 where
  pub payload : List ℕ

pub data BcMedia : Type 0 where
  info_v1 : BcMediaInfoV1 → BcMedia
  info_v2 : BcMediaInfoV2 → BcMedia
  iframe : BcMediaIframe → BcMedia
  pframe : BcMediaPframe → BcMedia
  aac : BcMediaAac → BcMedia
  adpcm : BcMediaAdpcm → BcMedia

abbrev pub IsU8 : ℕ → Type 0
IsU8 n = n < 256

abbrev pub IsU32 : ℕ → Type 0
IsU32 n = n < 4294967296

pub record FitsV1 (v : BcMediaInfoV1) : Type 0 where
  pub video_width : IsU32 v.video_width
  pub video_height : IsU32 v.video_height
  pub fps : IsU8 v.fps
  pub start_year : IsU8 v.start_year
  pub start_month : IsU8 v.start_month
  pub start_day : IsU8 v.start_day
  pub start_hour : IsU8 v.start_hour
  pub start_min : IsU8 v.start_min
  pub start_seconds : IsU8 v.start_seconds
  pub end_year : IsU8 v.end_year
  pub end_month : IsU8 v.end_month
  pub end_day : IsU8 v.end_day
  pub end_hour : IsU8 v.end_hour
  pub end_min : IsU8 v.end_min
  pub end_seconds : IsU8 v.end_seconds

pub record FitsV2 (v : BcMediaInfoV2) : Type 0 where
  pub video_width : IsU32 v.video_width
  pub video_height : IsU32 v.video_height
  pub fps : IsU8 v.fps
  pub start_year : IsU8 v.start_year
  pub start_month : IsU8 v.start_month
  pub start_day : IsU8 v.start_day
  pub start_hour : IsU8 v.start_hour
  pub start_min : IsU8 v.start_min
  pub start_seconds : IsU8 v.start_seconds
  pub end_year : IsU8 v.end_year
  pub end_month : IsU8 v.end_month
  pub end_day : IsU8 v.end_day
  pub end_hour : IsU8 v.end_hour
  pub end_min : IsU8 v.end_min
  pub end_seconds : IsU8 v.end_seconds

abbrev pub TimeFits : Option ℕ → Type 0
TimeFits none = Unit {0}
TimeFits (some t) = IsU32 t

-- The values that the Rust types can hold, with the payload lengths that the wire fields can carry.
abbrev pub Fits : BcMedia → Type 0
Fits (info_v1 v) = FitsV1 v
Fits (info_v2 v) = FitsV2 v
Fits (iframe v) = IsU32 v.microseconds × TimeFits v.time × IsU32 (length v.payload)
Fits (pframe v) = IsU32 v.microseconds × IsU32 (length v.payload)
Fits (aac v) = length v.payload < 65536
Fits (adpcm v) = (4 ≤ length v.payload) × (length v.payload + 4 < 65536)
