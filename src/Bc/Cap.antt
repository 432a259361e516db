-- ===== src/Bc/Cap.antt =====
-- How much the parsers of src/baichuan/bc/de.rs can ask the framer to buffer.
use bairelay.Base.{
  ℕ, ◌+◌, ◌-◌, ◌≤◌, ◌<◌, ◌≡◌, ◌≢◌, true, List, length, Option, some, ltb, ◌==◌, Bool-cases,
  Option-cases, inl, inr, leb→le, subst, arith,
}
use bairelay.Wire.Parsed.{incomplete}
use bairelay.Wire.Nom.{Nom}
use bairelay.Wire.Within.{
  Within, Any, Within-then, Within-weaken, le_u32-Within, le_u16-Within, le_u8-Within,
  verify-Within, take-Within, ok-Within, step_then,
}
use bairelay.Bc.Crypto.{AesCfb, decrypt}
use bairelay.Bc.Model.{BcHeader, is_modern, has_payload_offset, msg_id_login}
use bairelay.Bc.Context.{BcXmls, BcContext, payload_protocol, is_binary}
use bairelay.Bc.Parse.{
  fits_body, is_magic, max_bc_body_len, unwrap_or_default, from_utf8, offset_word, bc_header,
  text_of, hex32, bc_legacy_login_msg, processed_ext_buf, parse_extension, parse_payload,
  bc_modern_msg, bc_body, bc_msg,
}

abbrev Capped : BcHeader → Type 0
Capped header = header.body_len ≤ max_bc_body_len

module _ (nom : Nom) where
  offset_word-Within : (class : ℕ) (buf : List ℕ) → Within 4 Any buf (offset_word nom class buf)
  unfolding offset_word
  offset_word-Within class buf = elim (Bool-cases (has_payload_offset class)) [
    | inl e ↦ rw e (
        Within-then 4 0 Any Any nom.le_u32 _ buf (le_u32-Within nom buf)
          (λ n rest u. ok-Within (some n) rest))
    | inr e ↦ rw e (tt, omega arith)
  ]

  bc_header-Within : (buf : List ℕ) → Within 24 Capped buf (bc_header nom buf)
  unfolding bc_header
  bc_header-Within buf =
      Within-then 4 20 (λ n. is_magic n ≡ true) Capped (nom.verify nom.le_u32 is_magic) _ buf
        (verify-Within nom 4 nom.le_u32 is_magic buf (le_u32-Within nom buf))
        (λ magic r1 known.
          step_then 4 16 Capped nom.le_u32 _ r1 (le_u32-Within nom r1) (λ msg_id r2.
            Within-then 4 12 (λ n. fits_body n ≡ true) Capped (nom.verify nom.le_u32 fits_body) _ r2
              (verify-Within nom 4 nom.le_u32 fits_body r2 (le_u32-Within nom r2))
              (λ len r3 small.
                step_then 1 11 Capped nom.le_u8 _ r3 (le_u8-Within nom r3) (λ channel r4.
                  step_then 1 10 Capped nom.le_u8 _ r4 (le_u8-Within nom r4) (λ stream r5.
                    step_then 2 8 Capped nom.le_u16 _ r5 (le_u16-Within nom r5) (λ num r6.
                      step_then 2 6 Capped nom.le_u16 _ r6 (le_u16-Within nom r6) (λ code r7.
                        step_then 2 4 Capped nom.le_u16 _ r7 (le_u16-Within nom r7) (λ class r8.
                          step_then 4 0 Capped (offset_word nom class) _ r8
                            (offset_word-Within class r8)
                            (λ offset r9. (leb→le len max_bc_body_len small, omega arith))))))))))

  text_of-Within : (slice buf : List ℕ) → Within 0 Any buf (text_of nom slice buf)
  unfolding text_of
  text_of-Within slice buf = elim (Option-cases (from_utf8 slice)) [
    | inl e ↦ rw (e, text_of) tt
    | inr (text, e) ↦ rw (e, text_of) (tt, omega arith)
  ]

  hex32-Within : (buf : List ℕ) → Within 32 Any buf (hex32 nom buf)
  unfolding hex32
  hex32-Within buf = step_then 32 0 Any (nom.take 32) _ buf (take-Within nom 32 buf) text_of-Within

  login-Within : (buf : List ℕ) → Within 64 Any buf (bc_legacy_login_msg nom buf)
  unfolding bc_legacy_login_msg
  login-Within buf = step_then 32 32 Any (hex32 nom) _ buf (hex32-Within buf) (λ username r1.
      step_then 32 0 Any (hex32 nom) _ r1 (hex32-Within r1) (λ password r2. (tt, omega arith)))

module _ (nom : Nom) (cfb : AesCfb) (xml : BcXmls) where
  parse_extension-Within :
      (context : BcContext) (header : BcHeader) (len : ℕ) (ext_buf buf : List ℕ)
      → Within 0 Any buf (parse_extension nom cfb xml context header len ext_buf buf)
  unfolding parse_extension
  parse_extension-Within context header len ext_buf buf = elim (Bool-cases (ltb 0 len)) [
    | inl t ↦
        elim (Option-cases (
          xml.try_parse_ext (
            processed_ext_buf nom cfb xml context.encryption_protocol header.channel_id ext_buf))) [
              | inl e ↦ rw t (rw (e, parse_extension) tt)
              | inr (ext, e) ↦ rw t (rw (e, parse_extension) (tt, omega arith))
            ]
    | inr t ↦ rw t (tt, omega arith)
  ]

  parse_payload-Within :
      (context : BcContext) (header : BcHeader) (ext : Option xml.Extension) (len : ℕ)
      (payload_buf buf : List ℕ)
      → Within 0 Any buf (parse_payload nom cfb xml context header ext len payload_buf buf)
  unfolding parse_payload
  parse_payload-Within context header ext len payload_buf buf = elim (Bool-cases (ltb 0 len)) [
    | inl t ↦ elim (Bool-cases (is_binary xml context header.msg_num ext)) [
      | inl b ↦ rw t (rw b (tt, omega arith))
      | inr b ↦
          elim (Option-cases (
            xml.try_parse_xml
              (decrypt cfb (payload_protocol context header) header.channel_id payload_buf))) [
                | inl e ↦ rw (t, b) (rw (e, parse_payload) tt)
                | inr (tree, e) ↦ rw (t, b) (rw (e, parse_payload) (tt, omega arith))
              ]
    ]
    | inr t ↦ rw t (tt, omega arith)
  ]

  bc_modern_msg-Within :
      (context : BcContext) (header : BcHeader) (buf : List ℕ)
      → Capped header
      → Within 8388608 Any buf (bc_modern_msg nom cfb xml context header buf)
  unfolding bc_modern_msg
  bc_modern_msg-Within context header buf small =
      let n = unwrap_or_default header.payload_offset in
      let m = header.body_len - n in
      elim (Bool-cases (ltb header.body_len n)) [
        | inl t ↦ rw t tt
        | inr t ↦ rw t (
            Within-weaken (n + (m + (0 + (0 + 0)))) 8388608 Any buf _ (ground (arith, small, t)) (
              step_then n (m + (0 + (0 + 0))) Any (nom.take n) _ buf (take-Within nom n buf)
                (λ ext_buf r1.
                  step_then m (0 + (0 + 0)) Any (nom.take m) _ r1 (take-Within nom m r1)
                    (λ payload_buf r2.
                      step_then 0 (0 + 0) Any (parse_extension nom cfb xml context header n ext_buf)
                        _ r2 (parse_extension-Within context header n ext_buf r2)
                        (λ ext r3.
                          step_then 0 0 Any
                            (parse_payload nom cfb xml context header ext m payload_buf) _ r3
                            (parse_payload-Within context header ext m payload_buf r3)
                            (λ payload r4. (tt, omega arith)))))))
      ]

  bc_body-Within :
      (context : BcContext) (header : BcHeader) (buf : List ℕ)
      → Capped header
      → Within 8388608 Any buf (bc_body nom cfb xml context header buf)
  unfolding bc_body
  bc_body-Within context header buf small = elim (Bool-cases (is_modern header)) [
    | inl e ↦ rw e (
        step_then 8388608 0 Any (bc_modern_msg nom cfb xml context header) _ buf
          (bc_modern_msg-Within context header buf small) (λ body rest. (tt, omega arith)))
    | inr e ↦ elim (Bool-cases (header.msg_id == msg_id_login)) [
      | inl l ↦
          rw (e, l)
            (Within-weaken 64 8388608 Any buf _ (omega arith) (
              step_then 64 0 Any (bc_legacy_login_msg nom) _ buf (login-Within nom buf)
                (λ body rest. (tt, omega arith))))
      | inr l ↦ rw (e, l) (tt, omega arith)
    ]
  ]

  -- Whatever the bytes claim, the parser never waits with 8388632 bytes or more in its buffer.
  pub bc_msg-ne-incomplete :
      (context : BcContext) (buf : List ℕ)
      → 8388632 ≤ length buf
      → bc_msg nom cfb xml context buf ≢ incomplete
  unfolding bc_msg
  bc_msg-ne-incomplete context buf long e =
      let w : Within (24 + 8388608) Any buf (bc_msg nom cfb xml context buf) =
        Within-then 24 8388608 Capped Any (bc_header nom) _ buf (bc_header-Within nom buf)
          (λ header rest small.
            step_then 8388608 0 Any (bc_body nom cfb xml context header) _ rest
              (bc_body-Within context header rest small) (λ body more. (tt, omega arith))) in
      let short : length buf < 24 + 8388608 = subst (Within (24 + 8388608) Any buf) e w in
      omega (arith, short, long)
