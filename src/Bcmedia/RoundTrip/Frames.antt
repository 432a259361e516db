-- ===== src/Bcmedia/RoundTrip/Frames.antt =====
-- The frames with a payload and padding.
use bairelay.Base.{
  ℕ, ◌%◌, ◌<◌, ◌≡◌, refl, sym, true, List, [], ◌++◌, append_assoc, Option, none, some, length,
  length-replicate, arith,
}
use bairelay.Wire.Parsed.{done, then_reads}
use bairelay.Wire.Nom.{Nom}
use bairelay.Wire.CookieFactory.{CookieFactory}
use bairelay.Wire.Words.{u16_then, u32_then, verify_then, take_then}
use bairelay.Bcmedia.Model.{
  BcMediaIframe, BcMediaPframe, BcMediaAac, VideoType, h264, h265, IsU32, TimeFits,
}
use bairelay.Bcmedia.Parse.{
  padding, take4, is_video_type, to_video_type, iframe_time, iframe_remained, bcmedia_iframe,
  bcmedia_pframe, bcmedia_aac,
}
use bairelay.Bcmedia.Print.{
  vid_string, zero_padding, extra_header, extra_header_size, iframe_fields, pframe_fields,
  aac_fields,
}

is_video_type-vid_string : (t : VideoType) → is_video_type (vid_string t) ≡ true
unfolding is_video_type vid_string
is_video_type-vid_string h264 = refl
is_video_type-vid_string h265 = refl

to_video_type-vid_string :
    (t : VideoType) (buf : List ℕ) → to_video_type (vid_string t) buf ≡ done t buf
unfolding to_video_type vid_string
to_video_type-vid_string h264 buf = refl
to_video_type-vid_string h265 buf = refl

pub padding_lem :
    (payload : List ℕ) (n : ℕ)
    → n ≡ length payload % 4294967296
    → padding n ≡ length (zero_padding payload)
unfolding zero_padding
padding_lem payload n e = rw e (sym (length-replicate (padding (length payload % 4294967296)) 0))

module _ (nom : Nom) (cf : CookieFactory) where
  take4-vid_string :
      (t : VideoType) (rest : List ℕ) → take4 nom (vid_string t ++ rest) ≡ done (vid_string t) rest
  unfolding take4 vid_string
  take4-vid_string h264 rest = nom.take_reads (vid_string h264) rest
  take4-vid_string h265 rest = nom.take_reads (vid_string h265) rest

  -- The second word of the extra header, which the parser skips.
  abbrev left_over : Option ℕ → List ℕ
  left_over (some t) = cf.le_u32 0
  left_over none = []

  iframe_time_reads :
      (t : Option ℕ) (rest : List ℕ)
      → TimeFits t
      → iframe_time nom (extra_header_size cf t % 4294967296) (extra_header cf t ++ rest)
        ≡ done t (left_over t ++ rest)
  unfolding iframe_time extra_header extra_header_size
  iframe_time_reads (some t) rest h = simp append_assoc (u32_then nom cf _ t (ground arith))
  iframe_time_reads none rest h = refl

  iframe_remained_reads :
      (t : Option ℕ) (rest : List ℕ)
      → iframe_remained nom (extra_header_size cf t % 4294967296) (left_over t ++ rest)
        ≡ done (left_over t) rest
  unfolding iframe_remained extra_header_size
  iframe_remained_reads (some t) rest = rw (cf.le_u32_writes 0) (nom.take_reads _ rest)
  iframe_remained_reads none rest = refl

  pub bcmedia_iframe_reads :
      (v : BcMediaIframe) (rest : List ℕ)
      → IsU32 v.microseconds × TimeFits v.time × IsU32 (length v.payload)
      → bcmedia_iframe nom (iframe_fields cf v ++ (v.payload ++ (zero_padding v.payload ++ rest)))
        ≡ done v rest
  unfolding bcmedia_iframe iframe_fields
  bcmedia_iframe_reads v rest h = simp append_assoc (
      verify_then nom _ _ _ _ (take4-vid_string v.video_type _)
        (is_video_type-vid_string v.video_type)
        (u32_then nom cf _ _ (
          u32_then nom cf _ _ (
            u32_then nom cf _ v.microseconds (
              u32_then nom cf _ 0 (
                then_reads _ _ _ (iframe_time_reads v.time _ h.1) (
                  then_reads _ _ _ (iframe_remained_reads v.time _) (
                    take_then nom _ v.payload _ _ (omega arith) (
                      take_then nom _ (zero_padding v.payload) _ _
                        (padding_lem v.payload _ (omega arith))
                        (then_reads _ _ _ (to_video_type-vid_string v.video_type rest)
                          (ground arith)))))))))))

  pub bcmedia_pframe_reads :
      (v : BcMediaPframe) (rest : List ℕ)
      → IsU32 v.microseconds × IsU32 (length v.payload)
      → bcmedia_pframe nom (pframe_fields cf v ++ (v.payload ++ (zero_padding v.payload ++ rest)))
        ≡ done v rest
  unfolding bcmedia_pframe pframe_fields
  bcmedia_pframe_reads v rest h = simp append_assoc (
      verify_then nom _ _ _ _ (take4-vid_string v.video_type _)
        (is_video_type-vid_string v.video_type)
        (u32_then nom cf _ _ (
          u32_then nom cf _ _ (
            u32_then nom cf _ v.microseconds (
              u32_then nom cf _ 0 (
                take_then nom _ [] _ _ refl (
                  take_then nom _ v.payload _ _ (omega arith) (
                    take_then nom _ (zero_padding v.payload) _ _
                      (padding_lem v.payload _ (omega arith))
                      (then_reads _ _ _ (to_video_type-vid_string v.video_type rest)
                        (ground arith))))))))))

  pub bcmedia_aac_reads :
      (v : BcMediaAac) (rest : List ℕ)
      → length v.payload < 65536
      → bcmedia_aac nom (aac_fields cf v ++ (v.payload ++ (zero_padding v.payload ++ rest)))
        ≡ done v rest
  unfolding bcmedia_aac aac_fields
  bcmedia_aac_reads v rest h = simp append_assoc (
      u16_then nom cf _ _ (
        u16_then nom cf _ _ (
          take_then nom _ v.payload _ _ (omega arith) (
            take_then nom _ (zero_padding v.payload) _ _ (padding_lem v.payload _ (omega arith))
              refl))))
