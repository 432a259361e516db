-- ===== src/Bcmedia/Codex.antt =====
-- The codec of src/baichuan/bcmedia/codex.rs. Its loop runs on fuel; two rounds are enough, because the second
-- one meets an empty buffer. `amount_skipped` counts bytes of one buffer, far below 2 ^ 64.
use bairelay.Base.{
  ℕ, zero, suc, ◌+◌, ◌≡◌, ◌≢◌, refl, sym, ◌∙◌, Bool, true, false, List, [], ◌∷◌, ◌++◌, map,
  append_assoc, append-nil, All, length, ltb, if◌then◌else◌, ◌⊎◌, arith,
}
use bairelay.Wire.Parsed.{done, incomplete, error, failure, incomplete_stops}
use bairelay.Wire.Nom.{Nom, accept}
use bairelay.Wire.CookieFactory.{CookieFactory}
use bairelay.Bcmedia.Model.{BcMedia, Fits}
use bairelay.Bcmedia.Parse.{bcmedia, is_magic}
use bairelay.Bcmedia.Print.{serialize}
use bairelay.Bcmedia.RoundTrip.{bcmedia-serialize, NotAdpcm}

pub record BcMediaCodex : Type 0 where
  pub strict : Bool
  pub amount_skipped : ℕ

abbrev pub new : Bool → BcMediaCodex
new strict = record { strict = strict; amount_skipped = 0 }

-- `Ok(Some(frame))`, `Ok(None)` and `Err`. `stuck` is no value of the source: the fuel ran out.
pub data Decoded : Type 0 where
  frame : BcMedia → Decoded
  need_more : Decoded
  failed : Decoded
  stuck : Decoded

abbrev pub is_empty : List ℕ → Bool
is_empty [] = true
is_empty (x ∷ xs) = false

-- `if self.amount_skipped > 0 { self.amount_skipped = 0 }`
unfoldable pub restored : BcMediaCodex → BcMediaCodex
restored c = if ltb 0 c.amount_skipped then record c { amount_skipped = 0 } else c

module _ (nom : Nom) where
  -- `decode` on an `Err` that is not `NomIncomplete`; `again` is the next round of the loop.
  unfoldable pub on_error :
      (BcMediaCodex → List ℕ → Decoded × BcMediaCodex × List ℕ)
      → BcMediaCodex
      → List ℕ
      → Decoded × BcMediaCodex × List ℕ
  on_error again c src =
      if c.strict
      then (failed, c, src)
      else if is_empty src
      then (need_more, c, src)
      else again (record c { amount_skipped = c.amount_skipped + length src }) []

  unfoldable pub decode : ℕ → BcMediaCodex → List ℕ → Decoded × BcMediaCodex × List ℕ
  unfolding on_error restored
  decode zero c src = (stuck, c, src)
  decode (suc fuel) c src = elim (bcmedia nom src) [
    | done m rest ↦ (frame m, restored c, rest)
    | incomplete ↦ (need_more, restored c, src)
    | error ↦ on_error (decode fuel) c src
    | failure ↦ on_error (decode fuel) c src
  ]

  -- At the end of the stream, bytes that are left over are no error.
  unfoldable decode_eof : ℕ → BcMediaCodex → List ℕ → Decoded × BcMediaCodex × List ℕ
  unfolding decode
  decode_eof fuel c buf = decode fuel c buf

  bcmedia_empty : bcmedia nom [] ≡ incomplete
  unfolding bcmedia
  bcmedia_empty =
      incomplete_stops _ _ []
        (nom.verify_reads nom.le_u32 is_magic [] ∙ rw (nom.le_u32_short [] (omega arith), accept))

  -- The loop of the media decoder ends within two rounds, whatever the buffer holds.
  decode-ne-stuck :
      (fuel : ℕ) (c : BcMediaCodex) (src : List ℕ) → (decode (suc (suc fuel)) c src).0 ≢ stuck
  unfolding decode
  decode-ne-stuck fuel c src = ground (arith, bcmedia_empty)

  -- On a malformed frame a strict decoder reports it and keeps its state and the buffer; a
  -- lenient one drops what it had buffered, waits for the next bytes, and has its counter back
  -- at zero.
  pub decode_malformed :
      (fuel : ℕ) (c : BcMediaCodex) (src : List ℕ)
      → (bcmedia nom src ≡ error) ⊎ (bcmedia nom src ≡ failure)
      → decode (suc (suc fuel)) c src
        ≡ (if c.strict then (failed, c, src) else (need_more, new false, []))
  unfolding decode
  decode_malformed fuel c src bad = ground (arith, bcmedia_empty)

abbrev pub encode : CookieFactory → BcMedia → List ℕ → List ℕ
encode cf item dst = dst ++ serialize cf item

-- One frame that fits and is no ADPCM frame takes one round.
decode-serialize :
    (nom : Nom) (cf : CookieFactory) (fuel : ℕ) (c : BcMediaCodex) (m : BcMedia) (rest : List ℕ)
    → Fits m
    → NotAdpcm m
    → decode nom (suc fuel) c (serialize cf m ++ rest) ≡ (frame m, new c.strict, rest)
unfolding decode
decode-serialize nom cf fuel c m rest fits n =
    ground (arith, bcmedia-serialize nom cf m rest fits n)

-- Frames encoded into one buffer, one after the other.
abbrev pub encode_all : CookieFactory → List BcMedia → List ℕ → List ℕ
encode_all cf [] dst = dst
encode_all cf (m ∷ ms) dst = encode_all cf ms (encode cf m dst)

-- So many calls of the decoder on one buffer.
abbrev pub decode_times : Nom → ℕ → ℕ → BcMediaCodex → List ℕ → List Decoded × BcMediaCodex × List ℕ
decode_times nom fuel zero c src = ([], c, src)
decode_times nom fuel (suc n) c src =
    let r = decode nom fuel c src in
    let rest = decode_times nom fuel n r.1 r.2 in (r.0 ∷ rest.0, rest.1, rest.2)

abbrev all_bytes : CookieFactory → List BcMedia → List ℕ
all_bytes cf [] = []
all_bytes cf (m ∷ ms) = serialize cf m ++ all_bytes cf ms

encode_all_lem :
    (cf : CookieFactory) (ms : List BcMedia) (dst : List ℕ)
    → encode_all cf ms dst ≡ dst ++ all_bytes cf ms
encode_all_lem cf [] dst = sym (append-nil dst)
encode_all_lem cf (m ∷ ms) dst =
    encode_all_lem cf ms (dst ++ serialize cf m)
    ∙ append_assoc dst (serialize cf m) (all_bytes cf ms)

decode_times-all_bytes :
    (nom : Nom) (cf : CookieFactory) (fuel : ℕ) (strict : Bool) (ms : List BcMedia) (rest : List ℕ)
    → All Fits ms
    → All NotAdpcm ms
    → decode_times nom (suc fuel) (length ms) (new strict) (all_bytes cf ms ++ rest)
      ≡ (map frame ms, new strict, rest)
decode_times-all_bytes nom cf fuel strict [] rest f n = refl
decode_times-all_bytes nom cf fuel strict (m ∷ ms) rest (f, fs) (n, ns) =
    rw
      (
        append_assoc (serialize cf m) (all_bytes cf ms) rest,
        decode-serialize nom cf fuel (new strict) m (all_bytes cf ms ++ rest) f n,
        decode_times-all_bytes nom cf fuel strict ms rest fs ns,
      )
      refl

-- Frames that fit the wire fields and of which none is an ADPCM frame, one at least, are encoded
-- into one buffer; as many calls of the decoder give them back in order, whatever it has skipped
-- before, leave what follows them in the buffer, and have the counter of skipped bytes back at
-- zero.
pub decode_times-encode_all :
    (nom : Nom) (cf : CookieFactory) (fuel : ℕ) (c : BcMediaCodex) (m : BcMedia) (ms : List BcMedia)
    (rest : List ℕ)
    → All Fits (m ∷ ms)
    → All NotAdpcm (m ∷ ms)
    → decode_times nom (suc fuel) (suc (length ms)) c (encode_all cf (m ∷ ms) [] ++ rest)
      ≡ (map frame (m ∷ ms), new c.strict, rest)
decode_times-encode_all nom cf fuel c m ms rest (f, fs) (n, ns) =
    rw
      (
        encode_all_lem cf (m ∷ ms) [],
        append_assoc (serialize cf m) (all_bytes cf ms) rest,
        decode-serialize nom cf fuel c m (all_bytes cf ms ++ rest) f n,
        decode_times-all_bytes nom cf fuel c.strict ms rest fs ns,
      )
      refl

-- Of two frames that were encoded, `decode_eof` takes the first, and leaves the bytes of the second.
encode-decode_eof :
    (nom : Nom) (cf : CookieFactory) (fuel : ℕ) (c : BcMediaCodex) (m m' : BcMedia)
    → Fits m
    → NotAdpcm m
    → decode_eof nom (suc fuel) c (encode cf m' (encode cf m []))
      ≡ (frame m, new c.strict, serialize cf m')
unfolding decode_eof
encode-decode_eof nom cf fuel c m m' fits n =
    decode-serialize nom cf fuel c m (serialize cf m') fits n
