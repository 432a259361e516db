-- ===== src/Bcmedia/Print.antt =====
-- The writers of src/baichuan/bcmedia/ser.rs. Writing into a `Vec` cannot fail, so `serialize` is the
-- list of bytes that it appends. `len() as u32` and `as u16` are the remainders below.
use bairelay.Base.{ℕ, ◌+◌, ◌-◌, ◌/◌, ◌%◌, List, [], ◌++◌, Option, none, some, length, replicate}
use bairelay.Wire.CookieFactory.{CookieFactory}
use bairelay.Bcmedia.Parse.{padding, h264_str, h265_str}
use bairelay.Bcmedia.Model.{
  BcMedia, info_v1, info_v2, iframe, pframe, aac, adpcm, BcMediaInfoV1, BcMediaInfoV2,
  BcMediaIframe, BcMediaPframe, BcMediaAac, BcMediaAdpcm, VideoType, h264, h265,
  magic_header_bcmedia_info_v1, magic_header_bcmedia_info_v2, magic_header_bcmedia_iframe,
  magic_header_bcmedia_pframe, magic_header_bcmedia_aac, magic_header_bcmedia_adpcm,
  magic_header_bcmedia_adpcm_data,
}

unfoldable pub vid_string : VideoType → List ℕ
vid_string h264 = h264_str
vid_string h265 = h265_str

-- `vec![0; pad_size]` with the pad size of `len() as u32`.
unfoldable pub zero_padding : List ℕ → List ℕ
unfolding padding
zero_padding payload = replicate (padding (length payload % 4294967296)) 0

module _ (cf : CookieFactory) where
  open cf use {le_u8, le_u16, le_u32}

  -- What follows the magic number.
  unfoldable pub info_v1_fields : BcMediaInfoV1 → List ℕ
  info_v1_fields v =
      le_u32 32
      ++ (le_u32 v.video_width
          ++ (le_u32 v.video_height
              ++ (le_u8 0
                  ++ (le_u8 v.fps
                      ++ (le_u8 v.start_year
                          ++ (le_u8 v.start_month
                              ++ (le_u8 v.start_day
                                  ++ (le_u8 v.start_hour
                                      ++ (le_u8 v.start_min
                                          ++ (le_u8 v.start_seconds
                                              ++ (le_u8 v.end_year
                                                  ++ (le_u8 v.end_month
                                                      ++ (le_u8 v.end_day
                                                          ++ (le_u8 v.end_hour
                                                            ++ (le_u8 v.end_min
                                                            ++ (le_u8 v.end_seconds
                                                            ++ (le_u8 0 ++ le_u8 0)))))))))))))))))

  unfoldable pub info_v1_bytes : BcMediaInfoV1 → List ℕ
  info_v1_bytes v = le_u32 magic_header_bcmedia_info_v1 ++ info_v1_fields v

  -- What follows the magic number.
  unfoldable pub info_v2_fields : BcMediaInfoV2 → List ℕ
  info_v2_fields v =
      le_u32 32
      ++ (le_u32 v.video_width
          ++ (le_u32 v.video_height
              ++ (le_u8 0
                  ++ (le_u8 v.fps
                      ++ (le_u8 v.start_year
                          ++ (le_u8 v.start_month
                              ++ (le_u8 v.start_day
                                  ++ (le_u8 v.start_hour
                                      ++ (le_u8 v.start_min
                                          ++ (le_u8 v.start_seconds
                                              ++ (le_u8 v.end_year
                                                  ++ (le_u8 v.end_month
                                                      ++ (le_u8 v.end_day
                                                          ++ (le_u8 v.end_hour
                                                            ++ (le_u8 v.end_min
                                                            ++ (le_u8 v.end_seconds
                                                            ++ (le_u8 0 ++ le_u8 0)))))))))))))))))

  unfoldable pub info_v2_bytes : BcMediaInfoV2 → List ℕ
  info_v2_bytes v = le_u32 magic_header_bcmedia_info_v2 ++ info_v2_fields v

  unfoldable pub extra_header : Option ℕ → List ℕ
  extra_header (some t) = le_u32 t ++ le_u32 0
  extra_header none = []

  unfoldable pub extra_header_size : Option ℕ → ℕ
  extra_header_size (some t) = 8
  extra_header_size none = 0

  -- What follows the magic number.
  unfoldable pub iframe_fields : BcMediaIframe → List ℕ
  iframe_fields v =
      vid_string v.video_type
      ++ (le_u32 (length v.payload % 4294967296)
          ++ (le_u32 (extra_header_size v.time)
              ++ (le_u32 v.microseconds ++ (le_u32 0 ++ extra_header v.time))))

  unfoldable pub iframe_bytes : BcMediaIframe → List ℕ
  iframe_bytes v = le_u32 magic_header_bcmedia_iframe ++ iframe_fields v

  unfoldable pub pframe_fields : BcMediaPframe → List ℕ
  pframe_fields v =
      vid_string v.video_type
      ++ (le_u32 (length v.payload % 4294967296)
          ++ (le_u32 0 ++ (le_u32 v.microseconds ++ le_u32 0)))

  unfoldable pub pframe_bytes : BcMediaPframe → List ℕ
  pframe_bytes v = le_u32 magic_header_bcmedia_pframe ++ pframe_fields v

  unfoldable pub aac_fields : BcMediaAac → List ℕ
  aac_fields v = le_u16 (length v.payload % 65536) ++ le_u16 (length v.payload % 65536)

  unfoldable pub aac_bytes : BcMediaAac → List ℕ
  aac_bytes v = le_u32 magic_header_bcmedia_aac ++ aac_fields v

  -- `len() - 4` is on a 64-bit usize of a release build, which wraps; a debug build panics there on a
  -- payload below 4 bytes.
  unfoldable pub half_block_size : BcMediaAdpcm → ℕ
  half_block_size v =
      (length v.payload + 18446744073709551616 - 4) % 18446744073709551616 / 2 % 65536

  unfoldable pub adpcm_fields : BcMediaAdpcm → List ℕ
  adpcm_fields v =
      le_u16 ((length v.payload + 4) % 65536)
      ++ (le_u16 ((length v.payload + 4) % 65536)
          ++ (le_u16 magic_header_bcmedia_adpcm_data ++ le_u16 (half_block_size v)))

  unfoldable pub adpcm_bytes : BcMediaAdpcm → List ℕ
  adpcm_bytes v = le_u32 magic_header_bcmedia_adpcm ++ adpcm_fields v

  unfoldable pub serialize : BcMedia → List ℕ
  serialize (info_v1 v) = info_v1_bytes v
  serialize (info_v2 v) = info_v2_bytes v
  serialize (iframe v) = iframe_bytes v ++ (v.payload ++ zero_padding v.payload)
  serialize (pframe v) = pframe_bytes v ++ (v.payload ++ zero_padding v.payload)
  serialize (aac v) = aac_bytes v ++ (v.payload ++ zero_padding v.payload)
  serialize (adpcm v) = adpcm_bytes v ++ (v.payload ++ zero_padding v.payload)
