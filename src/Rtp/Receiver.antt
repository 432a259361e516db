-- ===== src/Rtp/Receiver.antt =====
-- What a receiver of RFC 6184 and RFC 7798 makes of the fragments.
use Prim.Native.Nat.{bit_and, bit_or}
use mathlib.Core.Path.{ap₂}
use bairelay.Base.{
  ℕ, zero, suc, ◌*◌, ◌/◌, ◌≤◌, ◌<◌, ◌≡◌, refl, ap, ◌∙◌, Bool, true, false, List, [], ◌∷◌, map,
  length, get_or, take, drop, leb, ◌==◌, ==_iff, arith,
}
use bairelay.Base.Bits.{all_below, all_below_sound}
use bairelay.Rtp.{
  RtpPacket, RtpCounters, fu_header, fragment_loop, fu_a_fragmenter, packetize_fu_a, fu_fragmenter,
  packetize_fu,
}
use bairelay.Rtp.Reassembly.{
  join, is_nil, Marked, Fragments, fragment_loop_nil, fragment_loop-Fragments,
}

-- The header of an H.264 unit, from the FU indicator and the FU header.
abbrev pub fu_a_header : ℕ → ℕ → ℕ
fu_a_header indicator header = bit_or (bit_and indicator 0xe0) (bit_and header 0x1f)

abbrev fu_a_restores : Bool → Bool → ℕ → Bool
fu_a_restores first last x =
    fu_a_header (bit_or (bit_and x 0x60) 28) (fu_header (bit_and x 0x1f) first last) == x

fu_a_table : (first last : Bool) → all_below 128 (fu_a_restores first last) ≡ true
unfolding all_below fu_header
fu_a_table true true = refl
fu_a_table true false = refl
fu_a_table false true = refl
fu_a_table false false = refl

-- The unit that the fragments carry: its header from the first one, its body from all.
abbrev pub receive_fu_a : List RtpPacket → List ℕ
receive_fu_a [] = []
receive_fu_a (p ∷ ps) =
    fu_a_header (get_or p.payload 0 0) (get_or p.payload 1 0)
    ∷ join (map (λ (q : RtpPacket). drop 2 q.payload) (p ∷ ps))

get_or-take : (n i : ℕ) (xs : List ℕ) → i < n → get_or xs i 0 ≡ get_or (take n xs) i 0
get_or-take (suc n) i [] h = refl
get_or-take (suc n) zero (x ∷ xs) h = refl
get_or-take (suc n) (suc i) (x ∷ xs) h = get_or-take n i xs (omega arith)
get_or-take zero i xs h = absurd (omega arith)

-- An H.264 unit with a body and without the forbidden bit, cut for any MTU above 14, is received
-- as it was, and its fragments have consecutive sequence numbers, the start bit on the first one
-- alone, the end bit and the marker on the last one alone, and none is larger than its room.
pub receive_fu_a-packetize_fu_a :
    (nal_header : ℕ) (body : List ℕ) (c : RtpCounters) (timestamp mtu : ℕ) (marker_on_last : Bool)
    → nal_header < 128
    → 1 ≤ length body
    → 14 < mtu
    → let ps = (packetize_fu_a (nal_header ∷ body) c timestamp marker_on_last mtu).1 in
      (receive_fu_a ps ≡ nal_header ∷ body)
      × Marked (fu_a_fragmenter nal_header timestamp marker_on_last mtu) c.seq true ps
unfolding packetize_fu_a fu_a_fragmenter
receive_fu_a-packetize_fu_a nal_header body c timestamp mtu marker_on_last fits some_body room =
    let f = fu_a_fragmenter nal_header timestamp marker_on_last mtu in
    let loop = fragment_loop (length body) f body 0 c in
    let e : leb mtu 14 ≡ false = ground arith in
    let parts = fragment_loop-Fragments (length body) f body 0 c (omega arith) (omega arith) in
    let some_parts : is_nil loop.1 ≡ false =
      fragment_loop_nil (length body) f body 0 c (omega arith) ∙ ground arith in
    rw e (received loop.1 parts some_parts, parts.marked)
  where
    received :
        (ps : List RtpPacket)
        → Fragments (fu_a_fragmenter nal_header timestamp marker_on_last mtu) body 0 c.seq ps
        → is_nil ps ≡ false
        → receive_fu_a ps ≡ nal_header ∷ body
    received [] parts h = cc
    received (p ∷ ps) parts h =
        let (seq, mark, start, size, more) = parts.marked in
        let first = get_or-take 2 0 p.payload (omega arith) ∙ ap (λ xs. get_or xs 0 0) start in
        let second = get_or-take 2 1 p.payload (omega arith) ∙ ap (λ xs. get_or xs 1 0) start in
        let restored =
          (==_iff _ nal_header).0
            (all_below_sound 128 _ nal_header (fu_a_table true (is_nil ps)) fits) in
        rw (first, second) (ap₂ (λ a b. a ∷ b) restored parts.data_is)

-- The first header byte of an H.265 unit, from that of the fragment and the FU header.
abbrev pub fu_byte0 : ℕ → ℕ → ℕ
fu_byte0 byte0 header = bit_or (bit_and byte0 0x81) (bit_and header 0x3f * 2)

abbrev fu_restores : Bool → Bool → ℕ → Bool
fu_restores first last x =
    fu_byte0 (bit_or (bit_and x 0x81) 98) (fu_header (bit_and (x / 2) 0x3f) first last) == x

fu_table : (first last : Bool) → all_below 256 (fu_restores first last) ≡ true
unfolding all_below fu_header
fu_table true true = refl
fu_table true false = refl
fu_table false true = refl
fu_table false false = refl

abbrev pub receive_fu : List RtpPacket → List ℕ
receive_fu [] = []
receive_fu (p ∷ ps) =
    fu_byte0 (get_or p.payload 0 0) (get_or p.payload 2 0)
    ∷ get_or p.payload 1 0
    ∷ join (map (λ (q : RtpPacket). drop 3 q.payload) (p ∷ ps))

-- An H.265 unit of two header bytes and a body, cut for any MTU above 15, is received as it was,
-- and its fragments have consecutive sequence numbers, the start bit on the first one alone, the
-- end bit and the marker on the last one alone, and none is larger than its room.
pub receive_fu-packetize_fu :
    (b0 b1 : ℕ) (body : List ℕ) (c : RtpCounters) (timestamp mtu : ℕ) (marker_on_last : Bool)
    → b0 < 256
    → 1 ≤ length body
    → 15 < mtu
    → let ps = (packetize_fu (b0 ∷ b1 ∷ body) c timestamp marker_on_last mtu).1 in
      (receive_fu ps ≡ b0 ∷ b1 ∷ body)
      × Marked (fu_fragmenter b0 b1 timestamp marker_on_last mtu) c.seq true ps
unfolding packetize_fu fu_fragmenter
receive_fu-packetize_fu b0 b1 body c timestamp mtu marker_on_last fits some_body room =
    let f = fu_fragmenter b0 b1 timestamp marker_on_last mtu in
    let loop = fragment_loop (length body) f body 0 c in
    let e : leb mtu 15 ≡ false = ground arith in
    let parts = fragment_loop-Fragments (length body) f body 0 c (omega arith) (omega arith) in
    let some_parts : is_nil loop.1 ≡ false =
      fragment_loop_nil (length body) f body 0 c (omega arith) ∙ ground arith in
    rw e (received loop.1 parts some_parts, parts.marked)
  where
    received :
        (ps : List RtpPacket)
        → Fragments (fu_fragmenter b0 b1 timestamp marker_on_last mtu) body 0 c.seq ps
        → is_nil ps ≡ false
        → receive_fu ps ≡ b0 ∷ b1 ∷ body
    received [] parts h = cc
    received (p ∷ ps) parts h =
        let (seq, mark, start, size, more) = parts.marked in
        let first = get_or-take 3 0 p.payload (omega arith) ∙ ap (λ xs. get_or xs 0 0) start in
        let second = get_or-take 3 1 p.payload (omega arith) ∙ ap (λ xs. get_or xs 1 0) start in
        let third = get_or-take 3 2 p.payload (omega arith) ∙ ap (λ xs. get_or xs 2 0) start in
        let restored =
          (==_iff _ b0).0 (all_below_sound 256 _ b0 (fu_table true (is_nil ps)) fits) in
        rw (first, second, third) (ap₂ (λ a b. a ∷ b1 ∷ b) restored parts.data_is)
