-- ===== src/Nal.antt =====
-- NAL units in an Annex-B byte stream: src/rtsp/codec/nal.rs. A byte is a number below 256; traces are left out.
pub mod Split
use bairelay.Base.{
  ℕ, zero, suc, ◌+◌, ◌*◌, ◌/◌, ◌%◌, Bool, true, false, not, ◌&&◌, ◌||◌, List, [], ◌∷◌, ◌++◌, Option,
  none, some, leb, ltb, ◌==◌, if◌then◌else◌,
}
use bairelay.Base.HashMap.{starts_with}
use bairelay.Rtp.Dispatch.{VideoCodec, h264, h265}

-- `nals.push(&stream[start..i])` where the unit has begun and is not empty.
unfoldable pub close : Option (List ℕ) → List (List ℕ) → List (List ℕ)
close none more = more
close (some []) more = more
close (some (x ∷ nal)) more = (x ∷ nal) ∷ more

unfoldable pub extend : Option (List ℕ) → ℕ → Option (List ℕ)
extend none b = none
extend (some nal) b = some (nal ++ (b ∷ []))

-- The loop at the byte `i`, with `stream[nal_start..i]`. The number is how many bytes of a start code are still to
-- be passed over: `i += 4` and `i += 3` pass the byte at hand and that many more. Behind the last place where a
-- start code fits, every byte belongs to the last unit.
unfoldable pub split_loop : List ℕ → ℕ → Option (List ℕ) → List (List ℕ)
unfolding close extend starts_with
split_loop [] skip nal = close nal []
split_loop (b ∷ stream) (suc skip) nal = split_loop stream skip nal
split_loop (b ∷ stream) zero nal = elim (starts_with (b ∷ stream) (0 ∷ 0 ∷ 0 ∷ 1 ∷ [])) [
  | true ↦ close nal (split_loop stream 3 (some []))
  | false ↦ elim (starts_with (b ∷ stream) (0 ∷ 0 ∷ 1 ∷ [])) [
    | true ↦ close nal (split_loop stream 2 (some []))
    | false ↦ split_loop stream zero (extend nal b)
  ]
]

unfoldable pub split_annex_b : List ℕ → List (List ℕ)
unfolding split_loop
split_annex_b stream = split_loop stream 0 none

-- `H264NalType::from_header_byte` and `H265NalType::from_header_byte`
abbrev pub h264_type : ℕ → ℕ
h264_type b = b % 32

abbrev pub h265_type : ℕ → ℕ
h265_type b = b / 2 % 64

abbrev pub within : ℕ → ℕ → ℕ → Bool
within lo hi n = leb lo n && leb n hi

unfoldable pub is_decodable_nal : List ℕ → VideoCodec → Bool
is_decodable_nal [] codec = false
is_decodable_nal (b0 ∷ nal) h264 = within 1 13 (h264_type b0)
is_decodable_nal (b0 ∷ []) h265 = false
is_decodable_nal (b0 ∷ b1 ∷ nal) h265 =
    let ty = h265_type b0 in
    if leb ty 9 || within 16 21 ty || within 32 40 ty then b0 % 2 * 32 + b1 / 8 == 0 else false

-- The first unit that decides: a forbidden bit decides nothing, and what is in doubt is H.264.
unfoldable pub detect_codec : List ℕ → Option VideoCodec
detect_codec [] = none
detect_codec (b0 ∷ nal) =
    let h264_ty = h264_type b0 in
    let h265_ty = h265_type b0 in
    let tid_plus1 : Bool = elim nal [ [] ↦ false | b1 ∷ more ↦ leb 1 (b1 % 8) ] in
    if not (b0 / 128 % 2 == 0)
    then none
    else if (h264_ty == 7 || h264_ty == 8) && ltb h265_ty 32
    then some h264
    else if within 32 40 h265_ty && tid_plus1
    then some h265
    else if h264_ty == 5 && not (within 19 21 h265_ty)
    then some h264
    else if within 19 21 h265_ty && tid_plus1
    then some h265
    else some h264
