-- ===== src/Rtp/AccessUnit.antt =====
-- What a receiver gets of an access unit.
use bairelay.Base.{
  ℕ, zero, suc, ◌+◌, ◌-◌, ◌%◌, ◌≤◌, ◌<◌, ◌≡◌, ◌⊎◌, refl, ap, subst, Bool, true, false, ◌&&◌, List,
  [], ◌∷◌, ◌++◌, length, get_or, ltb, leb, ◌==◌, Bool-cases, inl, inr, All, arith,
}
use bairelay.Rtp.{
  RtpPacket, RtpCounters, next_seq, Fragmenter, fragment_loop, fu_a_fragmenter, packetize_fu_a,
  fu_fragmenter, packetize_fu,
}
use bairelay.Rtp.Reassembly.{Marked}
use bairelay.Rtp.Receiver.{
  receive_fu_a, receive_fu_a-packetize_fu_a, receive_fu, receive_fu-packetize_fu,
}
use bairelay.Rtp.Dispatch.{
  default_mtu, VideoCodec, h264, h265, video, packetize_single, packetize_large, packetize_nal,
  dispatch_nals, dispatch,
}

-- A unit that the fragmenters can carry: of H.264 without the forbidden bit, of H.265 with both header
-- bytes.
abbrev pub IsUnit : VideoCodec → List ℕ → Type 0
IsUnit h264 [] = ⊥
IsUnit h264 (nal_header ∷ body) = nal_header < 128
IsUnit h265 [] = ⊥
IsUnit h265 (b0 ∷ []) = ⊥
IsUnit h265 (b0 ∷ b1 ∷ body) = b0 < 256

-- The fragments of a unit of more than 1388 bytes: the receiver puts them together to it, and their numbers, bits and
-- sizes are right.
abbrev pub Cut : VideoCodec → ℕ → ℕ → Bool → List ℕ → List RtpPacket → Type 0
Cut h264 pts seq marker nal ps =
    (1388 < length nal)
    × (receive_fu_a ps ≡ nal)
    × Marked (fu_a_fragmenter (get_or nal 0 0) pts marker default_mtu) seq true ps
Cut h265 pts seq marker nal ps =
    (1388 < length nal)
    × (receive_fu ps ≡ nal)
    × Marked (fu_fragmenter (get_or nal 0 0) (get_or nal 1 0) pts marker default_mtu) seq true ps

-- A unit of at most 1388 bytes in a packet of its own.
abbrev pub Whole : ℕ → ℕ → Bool → List ℕ → List RtpPacket → Type 0
Whole pts seq marker nal ps =
    (p : RtpPacket) × (ps ≡ p ∷ [])
    × (p.payload ≡ nal)
    × (p.sequence_number ≡ seq)
    × (p.timestamp ≡ pts)
    × (p.marker ≡ marker)
    × (length nal ≤ 1388)

abbrev pub is_last : List (List ℕ) → Bool
is_last [] = true
is_last (nal ∷ nals) = false

-- The packets of the units, one unit after the other, with consecutive sequence numbers.
abbrev pub Delivered : VideoCodec → ℕ → Bool → ℕ → List (List ℕ) → List RtpPacket → Type 0
Delivered codec pts end seq [] ps = ps ≡ []
Delivered codec pts end seq (nal ∷ nals) ps =
    (group : List RtpPacket) × (rest : List RtpPacket) × (ps ≡ group ++ rest)
    × (Whole pts seq (end && is_last nals) nal group
        ⊎ Cut codec pts seq (end && is_last nals) nal group)
    × Delivered codec pts end ((seq + length group) % 65536) nals rest

fragment_loop_seq :
    (fuel : ℕ) (f : Fragmenter) (body : List ℕ) (offset : ℕ) (c : RtpCounters)
    → c.seq < 65536
    → (fragment_loop fuel f body offset c).0.seq
      ≡ (c.seq + length (fragment_loop fuel f body offset c).1) % 65536
unfolding fragment_loop next_seq
fragment_loop_seq zero f body offset c h = omega (arith, h)
fragment_loop_seq (suc fuel) f body offset c h = elim (Bool-cases (ltb offset (length body))) [
  | inr over ↦ rw over (omega (arith, h))
  | inl more ↦ rw more (omega (arith, fragment_loop_seq fuel f body _ (next_seq c).0 (omega arith)))
]

-- What `packetize_nal` leaves in the counters.
packetize_nal_seq :
    (codec : VideoCodec) (nal : List ℕ) (c : RtpCounters) (pts : ℕ) (marker : Bool)
    → c.seq < 65536
    → let r = packetize_nal codec nal c pts marker in r.0.seq ≡ (c.seq + length r.1) % 65536
unfolding packetize_nal packetize_single packetize_large packetize_fu_a packetize_fu next_seq
packetize_nal_seq codec nal c pts marker h = elim (Bool-cases (leb (length nal + 12) default_mtu)) [
  | inl e ↦ rw e refl
  | inr e ↦ rw e (large codec nal)
]
  where
    large :
        (k : VideoCodec) (n : List ℕ)
        → (packetize_large k n c pts marker).0.seq
          ≡ (c.seq + length (packetize_large k n c pts marker).1) % 65536
    large h264 [] = omega (arith, h)
    large h264 (x ∷ body) = fragment_loop_seq (length body) _ body 0 c h
    large h265 [] = omega (arith, h)
    large h265 (x ∷ []) = omega (arith, h)
    large h265 (x ∷ y ∷ body) = fragment_loop_seq (length body) _ body 0 c h

-- One unit.
packetize_nal_lem :
    (codec : VideoCodec) (nal : List ℕ) (c : RtpCounters) (pts : ℕ) (marker : Bool)
    → IsUnit codec nal
    → let ps = (packetize_nal codec nal c pts marker).1 in
      Whole pts c.seq marker nal ps ⊎ Cut codec pts c.seq marker nal ps
unfolding packetize_nal packetize_single packetize_large next_seq
packetize_nal_lem codec nal c pts marker u = elim (Bool-cases (leb (length nal + 12) default_mtu)) [
  | inl e ↦ rw e (inl (_, refl, refl, refl, refl, refl, ground (arith, e)))
  | inr e ↦ rw e (inr (large codec nal u (ground (arith, e))))
]
  where
    large :
        (k : VideoCodec) (n : List ℕ)
        → IsUnit k n
        → 1388 < length n
        → Cut k pts c.seq marker n (packetize_large k n c pts marker).1
    large h264 (x ∷ body) v long =
        let (same, marked) =
          receive_fu_a-packetize_fu_a x body c pts default_mtu marker v (omega (arith, long))
            (omega arith) in
        (long, same, marked)
    large h265 (x ∷ y ∷ body) v long =
        let (same, marked) =
          receive_fu-packetize_fu x y body c pts default_mtu marker v (omega (arith, long))
            (omega arith) in
        (long, same, marked)
    large h264 [] v long = absurd v
    large h265 [] v long = absurd v
    large h265 (x ∷ []) v long = absurd v

is_last-== :
    (i last : ℕ) (nals : List (List ℕ))
    → suc i + length nals ≡ suc last
    → (i == last) ≡ is_last nals
is_last-== i last [] h = ground (arith, h)
is_last-== i last (nal ∷ nals) h = ground (arith, h)

dispatch_nals-Delivered :
    (codec : VideoCodec) (pts : ℕ) (end : Bool) (last i : ℕ) (nals : List (List ℕ))
    (c : RtpCounters)
    → All (IsUnit codec) nals
    → c.seq < 65536
    → i + length nals ≡ suc last
    → Delivered codec pts end c.seq nals (dispatch_nals codec pts end last i nals c).1
unfolding dispatch_nals
dispatch_nals-Delivered codec pts end last i [] c u h e = refl
dispatch_nals-Delivered codec pts end last i (nal ∷ nals) c (u, us) h e =
    let marker = end && (i == last) in
    let first = packetize_nal codec nal c pts marker in
    let seq = packetize_nal_seq codec nal c pts marker h in
    let bit : marker ≡ (end && is_last nals) =
      ap (λ b. end && b) (is_last-== i last nals (omega (arith, e))) in
    let rest =
      dispatch_nals-Delivered codec pts end last (suc i) nals first.0 us (omega (arith, seq))
        (omega (arith, e)) in
    (
      first.1,
      (dispatch_nals codec pts end last (suc i) nals first.0).1,
      refl,
      subst (λ b. Whole pts c.seq b nal first.1 ⊎ Cut codec pts c.seq b nal first.1) bit
          (packetize_nal_lem codec nal c pts marker u),
      subst
          (λ s.
            Delivered codec pts end s nals
              (dispatch_nals codec pts end last (suc i) nals first.0).1)
          seq rest,
    )

-- The packets of an access unit carry its units in order, H.264 units without the forbidden bit
-- or H.265 units with both header bytes, from a sequence number below 2 ^ 16 on: a unit of at
-- most 1388 bytes in a packet of its own and a larger one in fragments from which the receiver
-- gets it back; the sequence numbers are consecutive across the units, and the marker is on the
-- last packet of the last unit alone, and only where the access unit ends.
pub dispatch-Delivered :
    (codec : VideoCodec) (nals : List (List ℕ)) (pts : ℕ) (keyframe end : Bool) (c : RtpCounters)
    → All (IsUnit codec) nals
    → c.seq < 65536
    → Delivered codec pts end c.seq nals (dispatch (video codec nals pts keyframe end) c).1
unfolding dispatch dispatch_nals
dispatch-Delivered codec [] pts keyframe end c u h = refl
dispatch-Delivered codec (nal ∷ nals) pts keyframe end c u h =
    dispatch_nals-Delivered codec pts end (suc (length nals) - 1) 0 (nal ∷ nals) c u h (omega arith)
