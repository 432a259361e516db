-- ===== src/Bcmedia/RoundTrip/Info.antt =====
-- The two stream-info headers.
use bairelay.Base.{ℕ, ◌≡◌, refl, List, ◌++◌, append_assoc, arith}
use bairelay.Wire.Parsed.{done, then_reads}
use bairelay.Wire.Nom.{Nom}
use bairelay.Wire.CookieFactory.{CookieFactory}
use bairelay.Wire.Words.{le_u32-le_u32, u8_then, u32_then, verify_then}
use bairelay.Bcmedia.Model.{BcMediaInfoV1, FitsV1, BcMediaInfoV2, FitsV2}
use bairelay.Bcmedia.Parse.{bcmedia_info_v1, bcmedia_info_v2}
use bairelay.Bcmedia.Print.{info_v1_fields, info_v2_fields}

module _ (nom : Nom) (cf : CookieFactory) where
  -- The last two bytes are written as bytes and read as one word.
  le_u16-le_u8_zeros :
      (rest : List ℕ) → nom.le_u16 (cf.le_u8 0 ++ (cf.le_u8 0 ++ rest)) ≡ done 0 rest
  le_u16-le_u8_zeros rest = rw (cf.le_u8_writes 0) (nom.le_u16_reads 0 0 rest)

  pub bcmedia_info_v1_reads :
      (v : BcMediaInfoV1) (rest : List ℕ)
      → FitsV1 v
      → bcmedia_info_v1 nom (info_v1_fields cf v ++ rest) ≡ done v rest
  unfolding bcmedia_info_v1 info_v1_fields
  bcmedia_info_v1_reads v rest h = simp append_assoc (
      verify_then nom _ _ _ _ (le_u32-le_u32 nom cf 32 _) refl (
        u32_then nom cf _ v.video_width (
          u32_then nom cf _ v.video_height (
            u8_then nom cf _ 0 (
              u8_then nom cf _ v.fps (
                u8_then nom cf _ v.start_year (
                  u8_then nom cf _ v.start_month (
                    u8_then nom cf _ v.start_day (
                      u8_then nom cf _ v.start_hour (
                        u8_then nom cf _ v.start_min (
                          u8_then nom cf _ v.start_seconds (
                            u8_then nom cf _ v.end_year (
                              u8_then nom cf _ v.end_month (
                                u8_then nom cf _ v.end_day (
                                  u8_then nom cf _ v.end_hour (
                                    u8_then nom cf _ v.end_min (
                                      u8_then nom cf _ v.end_seconds (
                                        then_reads _ _ _ (le_u16-le_u8_zeros rest)
                                          (ground arith)))))))))))))))))))

  pub bcmedia_info_v2_reads :
      (v : BcMediaInfoV2) (rest : List ℕ)
      → FitsV2 v
      → bcmedia_info_v2 nom (info_v2_fields cf v ++ rest) ≡ done v rest
  unfolding bcmedia_info_v2 info_v2_fields
  bcmedia_info_v2_reads v rest h = simp append_assoc (
      verify_then nom _ _ _ _ (le_u32-le_u32 nom cf 32 _) refl (
        u32_then nom cf _ v.video_width (
          u32_then nom cf _ v.video_height (
            u8_then nom cf _ 0 (
              u8_then nom cf _ v.fps (
                u8_then nom cf _ v.start_year (
                  u8_then nom cf _ v.start_month (
                    u8_then nom cf _ v.start_day (
                      u8_then nom cf _ v.start_hour (
                        u8_then nom cf _ v.start_min (
                          u8_then nom cf _ v.start_seconds (
                            u8_then nom cf _ v.end_year (
                              u8_then nom cf _ v.end_month (
                                u8_then nom cf _ v.end_day (
                                  u8_then nom cf _ v.end_hour (
                                    u8_then nom cf _ v.end_min (
                                      u8_then nom cf _ v.end_seconds (
                                        then_reads _ _ _ (le_u16-le_u8_zeros rest)
                                          (ground arith)))))))))))))))))))
