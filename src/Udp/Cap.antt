-- ===== src/Udp/Cap.antt =====
-- How much the parsers of src/baichuan/bcudp/de.rs can ask the framer to buffer.
use bairelay.Base.{
  ℕ, ◌+◌, ◌≤◌, ◌<◌, ◌≡◌, ◌≢◌, true, List, length, ltb, ◌==◌, Bool-cases, Option-cases, inl, inr,
  leb→le, subst, arith,
}
use bairelay.Wire.Parsed.{Parser, incomplete, ok, ◌>>=◌}
use bairelay.Wire.Nom.{Nom}
use bairelay.Wire.Within.{
  Within, Any, Within-then, Within-weaken, take-Within, ok-Within, word_then, tested_then,
}
use bairelay.Udp.Crypto.{Crc32fast, calc_crc, decrypt}
use bairelay.Udp.Model.{
  BcUdp, discovery, ack, payload_data, magic_header_udp_nego, magic_header_udp_ack,
  magic_header_udp_data,
}
use bairelay.Udp.Parse.{
  UdpXml, fits_cap, max_bcudp_payload, disc_payload, udp_disc, ack_payload, udp_ack, udp_data,
  udp_dispatch, bcudp,
}

module _ (nom : Nom) (crc : Crc32fast) (xml : UdpXml) where
  -- A payload below the cap.
  capped_take :
      {B : Type 0} (n : ℕ) (f : List ℕ → Parser B) (buf : List ℕ)
      → fits_cap n ≡ true
      → ((xs rest : List ℕ) → Within 0 Any rest (f xs rest))
      → Within 65535 Any buf ((nom.take n >>= f) buf)
  capped_take n f buf h g =
      Within-weaken (n + 0) 65535 Any buf _ (omega (arith, leb→le n max_bcudp_payload h)) (
        Within-then n 0 Any Any (nom.take n) f buf (take-Within nom n buf) (λ xs rest u. g xs rest))

  disc_payload-Within :
      (tid checksum : ℕ) (enc buf : List ℕ)
      → Within 0 Any buf (disc_payload nom crc xml tid checksum enc buf)
  unfolding disc_payload
  disc_payload-Within tid checksum enc buf = elim (Bool-cases (checksum == calc_crc crc enc)) [
    | inl e ↦ elim (Option-cases (xml.try_parse (decrypt tid enc))) [
      | inl f ↦ rw e (rw (f, disc_payload) tt)
      | inr (x, f) ↦ rw e (rw (f, disc_payload) (tt, omega arith))
    ]
    | inr e ↦ rw e tt
  ]

  udp_disc-Within :
      (buf : List ℕ) → Within (4 + (4 + (4 + (4 + 65535)))) Any buf (udp_disc nom crc xml buf)
  unfolding udp_disc
  udp_disc-Within buf = tested_then nom _ _ _ buf (λ n r1 h. tested_then nom _ _ _ r1 (λ o r2 u.
      word_then nom _ _ r2 (λ tid r3.
        word_then nom _ _ r3
          (λ sum r4. capped_take n _ r4 h (λ enc r5. disc_payload-Within tid sum enc r5)))))

  ack_payload-Within :
      (n : ℕ) (buf : List ℕ)
      → fits_cap n ≡ true
      → Within 65535 Any buf (ack_payload nom crc xml n buf)
  unfolding ack_payload
  ack_payload-Within n buf h = elim (Bool-cases (ltb 0 n)) [
    | inl e ↦ rw e (
        Within-weaken n 65535 Any buf _ (omega (arith, leb→le n max_bcudp_payload h))
          (take-Within nom n buf))
    | inr e ↦ rw e (tt, omega arith)
  ]

  udp_ack-Within :
      (buf : List ℕ)
      → Within (4 + (4 + (4 + (4 + (4 + (4 + (65535 + 0))))))) Any buf (udp_ack nom crc xml buf)
  unfolding udp_ack
  udp_ack-Within buf = word_then nom _ _ buf (λ c r1. tested_then nom _ _ _ r1 (λ o r2 u.
      tested_then nom _ _ _ r2 (λ g r3 u. word_then nom _ _ r3 (λ k r4.
        word_then nom _ _ r4 (λ l r5. tested_then nom _ _ _ r5 (λ n r6 h.
          Within-then 65535 0 Any Any (ack_payload nom crc xml n) _ r6 (ack_payload-Within n r6 h)
            (λ xs r7 u. (tt, omega arith))))))))

  udp_data-Within :
      (buf : List ℕ) → Within (4 + (4 + (4 + (4 + 65535)))) Any buf (udp_data nom crc xml buf)
  unfolding udp_data
  udp_data-Within buf = word_then nom _ _ buf (λ c r1. tested_then nom _ _ _ r1 (λ o r2 u.
      word_then nom _ _ r2 (λ k r3.
        tested_then nom _ _ _ r3 (λ n r4 h. capped_take n _ r4 h (λ xs r5. (tt, omega arith))))))

  -- One arm of `bcudp`: a body, and its packet.
  arm-Within :
      {A : Type 0} (n : ℕ) (p : Parser A) (c : A → BcUdp xml.Xml) (buf : List ℕ)
      → n ≤ 65559
      → Within n Any buf (p buf)
      → Within 65559 Any buf ((p >>= λ a. ok (c a)) buf)
  arm-Within n p c buf fits h =
      Within-weaken (n + 0) 65559 Any buf _ (omega (arith, fits))
        (Within-then n 0 Any Any p (λ a. ok (c a)) buf h (λ a rest u. ok-Within (c a) rest))

  udp_dispatch-Within :
      (magic : ℕ) (buf : List ℕ) → Within 65559 Any buf (udp_dispatch nom crc xml magic buf)
  unfolding udp_dispatch
  udp_dispatch-Within magic buf = elim (Bool-cases (magic == magic_header_udp_nego)) [
    | inl e ↦
        rw e (arm-Within _ (udp_disc nom crc xml) discovery buf (omega arith) (udp_disc-Within buf))
    | inr e ↦ rw e (elim (Bool-cases (magic == magic_header_udp_ack)) [
      | inl f ↦ rw f (arm-Within _ (udp_ack nom crc xml) ack buf (omega arith) (udp_ack-Within buf))
      | inr f ↦ rw f (elim (Bool-cases (magic == magic_header_udp_data)) [
        | inl g ↦ rw g (
            arm-Within _ (udp_data nom crc xml) payload_data buf (omega arith)
              (udp_data-Within buf))
        | inr g ↦ rw g tt
      ])
    ])
  ]

  bcudp-Within : (buf : List ℕ) → Within (4 + 65559) Any buf (bcudp nom crc xml buf)
  unfolding bcudp
  bcudp-Within buf = tested_then nom _ _ _ buf (λ magic rest h. udp_dispatch-Within magic rest)

  -- Whatever the bytes claim, the parser never waits with 65563 bytes or more in its buffer: it accepts a
  -- packet or refuses it.
  pub bcudp-ne-incomplete : (buf : List ℕ) → 65563 ≤ length buf → bcudp nom crc xml buf ≢ incomplete
  bcudp-ne-incomplete buf long e =
      let w : length buf < 4 + 65559 = subst (Within (4 + 65559) Any buf) e (bcudp-Within buf) in
      omega (arith, w, long)
