-- ===== src/Bcmedia/Examples.antt =====
-- The theorems of bcmedia on concrete frames.
use bairelay.Base.{ℕ, ◌≡◌, refl, inl, true, false, List, [], ◌∷◌, ◌++◌, some, arith}
use bairelay.Wire.Parsed.{done, error, ◌>>=◌}
use bairelay.Wire.Concrete.{streaming, writer}
use bairelay.Bcmedia.Model.{BcMedia, BcMediaAdpcm, iframe, aac, adpcm, h265}
use bairelay.Bcmedia.Parse.{bcmedia, is_magic}
use bairelay.Bcmedia.Print.{serialize}
use bairelay.Bcmedia.RoundTrip.{bcmedia-serialize}
use bairelay.Bcmedia.Adpcm.{bcmedia-serialize_adpcm}
use bairelay.Bcmedia.Codex.{
  new, frame, need_more, decode, decode_malformed, encode_all, decode_times,
  decode_times-encode_all,
}

abbrev key_frame : BcMedia
key_frame =
    iframe
      (record { video_type = h265; microseconds = 123; time = some 456; payload = 7 ∷ 8 ∷ 9 ∷ [] })

abbrev block_of_four : BcMediaAdpcm
block_of_four = record { payload = 1 ∷ 2 ∷ 3 ∷ 4 ∷ [] }

abbrev garbage : List ℕ
garbage = 1 ∷ 2 ∷ 3 ∷ 4 ∷ 5 ∷ []

garbage_is_refused : bcmedia streaming garbage ≡ error
unfolding bcmedia is_magic ◌>>=◌
garbage_is_refused = refl

bcmedia-serialize_example :
    bcmedia streaming (serialize writer key_frame ++ (9 ∷ [])) ≡ done key_frame (9 ∷ [])
bcmedia-serialize_example = bcmedia-serialize streaming writer key_frame (9 ∷ []) (omega arith) tt

bcmedia-serialize_adpcm_example :
    bcmedia streaming (serialize writer (adpcm block_of_four) ++ (6 ∷ 7 ∷ 8 ∷ 9 ∷ []))
    ≡ done (adpcm block_of_four) (0 ∷ 0 ∷ 0 ∷ 0 ∷ 6 ∷ 7 ∷ 8 ∷ 9 ∷ [])
bcmedia-serialize_adpcm_example =
    bcmedia-serialize_adpcm streaming writer block_of_four 6 7 8 9 [] (omega arith) (omega arith)

decode_malformed_example : decode streaming 2 (new false) garbage ≡ (need_more, new false, [])
decode_malformed_example = decode_malformed streaming 0 (new false) garbage (inl garbage_is_refused)

abbrev sound : BcMedia
sound = aac (record { payload = 5 ∷ 6 ∷ [] })

-- Of a decoder that has skipped bytes before.
decode_times-encode_all_example :
    decode_times streaming 1 2
      (record { strict = true; amount_skipped = 3 })
      (encode_all writer (key_frame ∷ sound ∷ []) [] ++ (9 ∷ []))
    ≡ (frame key_frame ∷ frame sound ∷ [], new true, 9 ∷ [])
decode_times-encode_all_example =
    decode_times-encode_all streaming writer 0 (record { strict = true; amount_skipped = 3 })
      key_frame (sound ∷ []) (9 ∷ []) (omega arith, (omega arith, tt)) (tt, (tt, tt))
