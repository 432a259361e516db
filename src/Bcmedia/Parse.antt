-- ===== src/Bcmedia/Parse.antt =====
-- The parsers of src/baichuan/bcmedia/de.rs. Each reads its fields in the order of the source and
-- threads the rest of the buffer through `◌>>=◌`, which is the source's `?`.
use bairelay.Base.{
  ℕ, ◌-◌, ◌%◌, Bool, true, false, ◌&&◌, ◌||◌, List, [], ◌∷◌, Option, none, some, ltb, leb, ◌==◌,
  if◌then◌else◌,
}
use bairelay.Wire.Parsed.{Parser, ◌>>=◌, ◌>>◌, ok, failure}
use bairelay.Wire.Nom.{Nom}
use bairelay.Bcmedia.Model.{
  BcMedia, info_v1, info_v2, iframe, pframe, aac, adpcm, BcMediaInfoV1, BcMediaInfoV2,
  BcMediaIframe, BcMediaPframe, BcMediaAac, BcMediaAdpcm, VideoType, h264, h265,
  magic_header_bcmedia_info_v1, magic_header_bcmedia_info_v2, magic_header_bcmedia_iframe,
  magic_header_bcmedia_iframe_last, magic_header_bcmedia_pframe, magic_header_bcmedia_pframe_last,
  magic_header_bcmedia_aac, magic_header_bcmedia_adpcm, magic_header_bcmedia_adpcm_data,
}

abbrev pub pad_size : ℕ
pad_size = 8

-- `match n % PAD_SIZE { 0 => 0, n => PAD_SIZE - n }`
unfoldable pub padding : ℕ → ℕ
padding n = if n % pad_size == 0 then 0 else pad_size - n % pad_size

abbrev pub is_iframe_magic : ℕ → Bool
is_iframe_magic x = leb magic_header_bcmedia_iframe x && leb x magic_header_bcmedia_iframe_last

abbrev pub is_pframe_magic : ℕ → Bool
is_pframe_magic x = leb magic_header_bcmedia_pframe x && leb x magic_header_bcmedia_pframe_last

-- The predicate that `bcmedia` verifies the magic with.
unfoldable pub is_magic : ℕ → Bool
is_magic x =
    x == magic_header_bcmedia_info_v1
    || (x == magic_header_bcmedia_info_v2
        || (is_iframe_magic x
            || (is_pframe_magic x
                || (x == magic_header_bcmedia_aac || x == magic_header_bcmedia_adpcm))))

-- "H264" and "H265", as bytes.
abbrev pub h264_str : List ℕ
h264_str = 0x48 ∷ 0x32 ∷ 0x36 ∷ 0x34 ∷ []

abbrev pub h265_str : List ℕ
h265_str = 0x48 ∷ 0x32 ∷ 0x36 ∷ 0x35 ∷ []

unfoldable pub bytes_eq : List ℕ → List ℕ → Bool
bytes_eq [] [] = true
bytes_eq [] (y ∷ ys) = false
bytes_eq (x ∷ xs) [] = false
bytes_eq (x ∷ xs) (y ∷ ys) = x == y && bytes_eq xs ys

-- Bytes that are no UTF-8 are an `Err::Error` of `take4`, as are those that `verify` refuses, and
-- both tags are ASCII: so one predicate on the four bytes stands for the two.
unfoldable pub is_video_type : List ℕ → Bool
unfolding bytes_eq
is_video_type s = bytes_eq s h264_str || bytes_eq s h265_str

unfoldable pub to_video_type : List ℕ → Parser VideoType
unfolding bytes_eq
to_video_type s =
    if bytes_eq s h264_str then ok h264 else if bytes_eq s h265_str then ok h265 else λ buf. failure

module _ (nom : Nom) where
  open nom use {le_u8, le_u16, le_u32, take, verify}

  unfoldable pub bcmedia_info_v1 : Parser BcMediaInfoV1
  bcmedia_info_v1 = do
    verify le_u32 (λ x. x == 32)
    video_width ← le_u32
    video_height ← le_u32
    le_u8
    fps ← le_u8
    start_year ← le_u8
    start_month ← le_u8
    start_day ← le_u8
    start_hour ← le_u8
    start_min ← le_u8
    start_seconds ← le_u8
    end_year ← le_u8
    end_month ← le_u8
    end_day ← le_u8
    end_hour ← le_u8
    end_min ← le_u8
    end_seconds ← le_u8
    le_u16
    ok (record {
      video_width = video_width;
      video_height = video_height;
      fps = fps;
      start_year = start_year;
      start_month = start_month;
      start_day = start_day;
      start_hour = start_hour;
      start_min = start_min;
      start_seconds = start_seconds;
      end_year = end_year;
      end_month = end_month;
      end_day = end_day;
      end_hour = end_hour;
      end_min = end_min;
      end_seconds = end_seconds;
    })

  unfoldable pub bcmedia_info_v2 : Parser BcMediaInfoV2
  bcmedia_info_v2 = do
    verify le_u32 (λ x. x == 32)
    video_width ← le_u32
    video_height ← le_u32
    le_u8
    fps ← le_u8
    start_year ← le_u8
    start_month ← le_u8
    start_day ← le_u8
    start_hour ← le_u8
    start_min ← le_u8
    start_seconds ← le_u8
    end_year ← le_u8
    end_month ← le_u8
    end_day ← le_u8
    end_hour ← le_u8
    end_min ← le_u8
    end_seconds ← le_u8
    le_u16
    ok (record {
      video_width = video_width;
      video_height = video_height;
      fps = fps;
      start_year = start_year;
      start_month = start_month;
      start_day = start_day;
      start_hour = start_hour;
      start_min = start_min;
      start_seconds = start_seconds;
      end_year = end_year;
      end_month = end_month;
      end_day = end_day;
      end_hour = end_hour;
      end_min = end_min;
      end_seconds = end_seconds;
    })

  unfoldable pub take4 : Parser (List ℕ)
  take4 = take 4

  -- `if additional_header_size >= 4 { le_u32 → Some } else { None }`
  unfoldable pub iframe_time : ℕ → Parser (Option ℕ)
  iframe_time size = if leb 4 size then (do time_value ← le_u32; ok (some time_value)) else ok none

  -- `if additional_header_size > 4 { take(additional_header_size - 4) }`
  unfoldable pub iframe_remained : ℕ → Parser (List ℕ)
  iframe_remained size = if ltb 4 size then take (size - 4) else ok []

  unfoldable pub bcmedia_iframe : Parser BcMediaIframe
  bcmedia_iframe = do
    video_type_str ← verify take4 is_video_type
    payload_size ← le_u32
    additional_header_size ← le_u32
    microseconds ← le_u32
    le_u32
    time ← iframe_time additional_header_size
    iframe_remained additional_header_size
    data_slice ← take payload_size
    take (padding payload_size)
    video_type ← to_video_type video_type_str
    ok (record {
      video_type = video_type;
      microseconds = microseconds;
      time = time;
      payload = data_slice;
    })

  unfoldable pub bcmedia_pframe : Parser BcMediaPframe
  bcmedia_pframe = do
    video_type_str ← verify take4 is_video_type
    payload_size ← le_u32
    additional_header_size ← le_u32
    microseconds ← le_u32
    le_u32
    take additional_header_size
    data_slice ← take payload_size
    take (padding payload_size)
    video_type ← to_video_type video_type_str
    ok (record { video_type = video_type; microseconds = microseconds; payload = data_slice })

  unfoldable pub bcmedia_aac : Parser BcMediaAac
  bcmedia_aac = do
    payload_size ← le_u16
    le_u16
    data_slice ← take payload_size
    take (padding payload_size)
    ok (record { payload = data_slice })

  abbrev pub sub_header_size : ℕ
  sub_header_size = 4

  unfoldable pub bcmedia_adpcm : Parser BcMediaAdpcm
  bcmedia_adpcm = do
    payload_size ← verify le_u16 (λ n. leb 4 n)
    le_u16
    verify le_u16 (λ x. x == magic_header_bcmedia_adpcm_data)
    le_u16
    data_slice ← take (payload_size - 4)
    take (padding payload_size)
    ok (record { payload = data_slice })

  -- The `match magic` of `bcmedia`.
  unfoldable pub dispatch : ℕ → Parser BcMedia
  dispatch magic =
      if magic == magic_header_bcmedia_info_v1
      then (do payload ← bcmedia_info_v1; ok (info_v1 payload))
      else if magic == magic_header_bcmedia_info_v2
      then (do payload ← bcmedia_info_v2; ok (info_v2 payload))
      else if is_iframe_magic magic
      then (do payload ← bcmedia_iframe; ok (iframe payload))
      else if is_pframe_magic magic
      then (do payload ← bcmedia_pframe; ok (pframe payload))
      else if magic == magic_header_bcmedia_aac
      then (do payload ← bcmedia_aac; ok (aac payload))
      else if magic == magic_header_bcmedia_adpcm
      then (do payload ← bcmedia_adpcm; ok (adpcm payload))
      else λ buf. failure

  unfoldable pub bcmedia : Parser BcMedia
  bcmedia = do magic ← verify le_u32 is_magic; dispatch magic
