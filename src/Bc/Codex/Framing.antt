-- ===== src/Bc/Codex/Framing.antt =====
-- The codec of Baichuan messages as a framer: what it encodes it decodes, and how much it buffers.
use bairelay.Base.{
  ℕ, ◌/◌, ◌<◌, ◌≡◌, ◌≢◌, refl, sym, ap, ◌∙◌, false, List, ◌++◌, some, length, leb, ◌==◌, Bool-cases,
  Option-cases, inl, inr, arith,
}
use bairelay.Wire.Parsed.{Parsed, done, incomplete, error, failure}
use bairelay.Wire.Nom.{Nom}
use bairelay.Wire.CookieFactory.{CookieFactory}
use bairelay.Bc.Crypto.{AesCfb, Md5}
use bairelay.Bc.Model.{Bc, modern_msg, ModernMsg, BcMeta}
use bairelay.Bc.Context.{BcXmls, enc_protocol}
use bairelay.Bc.Parse.{bc_msg}
use bairelay.Bc.Print.{serialize_bc}
use bairelay.Bc.Fits.{FitsModern}
use bairelay.Bc.RoundTrip.{bc_msg-serialize_bc}
use bairelay.Bc.Cap.{bc_msg-ne-incomplete}
use bairelay.Bc.Codex.{
  BcCodex, Decoded, frame, no_frame, malformed, unknown_encryption, resolve_pending, arm, encode,
  encryption_of, negotiate, finish, settle, switch_binary, outcome, decode,
}

module _ (xml : BcXmls) (md5 : Md5) where
  open xml use {Extension, BcXml}

  negotiate_plain :
      (codex : BcCodex) (bc : Bc Extension BcXml)
      → (bc.meta.msg_id ≡ 1 → bc.meta.response_code / 256 ≢ 0xdd)
      → negotiate xml md5 codex bc ≡ (frame bc, codex)
  unfolding negotiate
  negotiate_plain codex bc h = elim (Bool-cases (bc.meta.msg_id == 1)) [
    | inr e ↦ rw e refl
    | inl e ↦
        let f : (bc.meta.response_code / 256 == 0xdd) ≡ false = ground (arith, h) in
        elim (Option-cases (encryption_of xml bc.body)) [
          | inl n ↦ rw e (rw (n, negotiate) refl)
          | inr (info, n) ↦ rw e (rw (n, negotiate) (rw f refl))
        ]
  ]

  -- A message that negotiates nothing is always handed on.
  pub settle_plain :
      (codex : BcCodex) (bc : Bc Extension BcXml)
      → (bc.meta.msg_id ≡ 1 → bc.meta.response_code / 256 ≢ 0xdd)
      → settle xml md5 codex bc ≡ (frame bc, switch_binary xml (resolve_pending codex bc.meta) bc)
  unfolding settle finish
  settle_plain codex bc h =
      ap (finish xml bc) (negotiate_plain (resolve_pending codex bc.meta) bc h)

module _ (nom : Nom) (cfb : AesCfb) (xml : BcXmls) (md5 : Md5) where
  open xml use {Extension, BcXml}

  -- A modern message that fits (its fields fit the wire and its body 8 MiB; its class has a
  -- payload offset where there is an extension; quick_xml writes no tree as nothing and reads
  -- each back; a binary payload is not empty, stands where the peer takes it as binary, and has
  -- no part to be decrypted, and XML stands where it does not; a login neither has an extension
  -- nor negotiates) is encoded behind what the buffer holds; a peer in the same session decodes
  -- its bytes to the same message through the encryption, and leaves what follows.
  pub decode-encode :
      (cf : CookieFactory) (codex peer : BcCodex) (meta : BcMeta)
      (modern : ModernMsg Extension BcXml) (dst rest : List ℕ)
      → let bc : Bc Extension BcXml = record { meta = meta; body = modern_msg modern } in
        peer.context ≡ (arm xml codex bc).context
        → FitsModern xml peer.context meta modern
        → (bytes : List ℕ) × (encode xml cfb cf codex bc dst
            ≡ (arm xml codex bc, some (dst ++ bytes)))
          × (decode xml nom cfb md5 peer (bytes ++ rest)
              ≡ ((frame bc, switch_binary xml (resolve_pending peer meta) bc), rest))
  unfolding encode outcome decode
  decode-encode cf codex peer meta modern dst rest same v =
      let (bytes, writes, reads) =
        bc_msg-serialize_bc nom cf cfb xml peer.context meta modern rest v in
      let bc : Bc Extension BcXml = record { meta = meta; body = modern_msg modern } in
      let written =
        ap (λ c. serialize_bc cfb xml cf bc (enc_protocol c.encryption_protocol meta.msg_id))
          (sym same)
        ∙ writes in
      (
        bytes,
        rw (written, encode) refl,
        rw (reads, outcome) (ap (λ r. (r, rest)) (settle_plain xml md5 peer bc v.no_negotiation)),
      )

  negotiate-ne-no_frame :
      (codex : BcCodex) (bc : Bc Extension BcXml) → (negotiate xml md5 codex bc).0 ≢ no_frame
  unfolding negotiate
  negotiate-ne-no_frame codex bc = ground arith

  finish-ne-no_frame :
      (bc : Bc Extension BcXml) (r : Decoded Extension BcXml × BcCodex)
      → r.0 ≢ no_frame
      → (finish xml bc r).0 ≢ no_frame
  unfolding finish
  finish-ne-no_frame bc (frame b, next) h = λ e. cc
  finish-ne-no_frame bc (no_frame, next) h = h
  finish-ne-no_frame bc (malformed, next) h = h
  finish-ne-no_frame bc (unknown_encryption n, next) h = h

  settle-ne-no_frame :
      (codex : BcCodex) (bc : Bc Extension BcXml) → (settle xml md5 codex bc).0 ≢ no_frame
  unfolding settle
  settle-ne-no_frame codex bc =
      finish-ne-no_frame bc _ (negotiate-ne-no_frame (resolve_pending codex bc.meta) bc)

  outcome-ne-no_frame :
      (codex : BcCodex) (r : Parsed (Bc Extension BcXml)) (buf : List ℕ)
      → r ≢ incomplete
      → (outcome xml md5 codex r buf).0.0 ≢ no_frame
  unfolding outcome
  outcome-ne-no_frame codex (done bc rest) buf h = settle-ne-no_frame codex bc
  outcome-ne-no_frame codex incomplete buf h = absurd (h refl)
  outcome-ne-no_frame codex error buf h = λ e. cc
  outcome-ne-no_frame codex failure buf h = λ e. cc

  -- The decoder of Baichuan messages asks for more bytes only while it has fewer than 8388632,
  -- that is 8 MiB and a header: no message makes it buffer more.
  pub decode_bound :
      (codex : BcCodex) (buf : List ℕ)
      → (decode xml nom cfb md5 codex buf).0.0 ≡ no_frame
      → length buf < 8388632
  unfolding decode
  decode_bound codex buf e = elim (Bool-cases (leb 8388632 (length buf))) [
    | inr short ↦ ground arith
    | inl long ↦ absurd (
        outcome-ne-no_frame codex (bc_msg nom cfb xml codex.context buf) buf
          (bc_msg-ne-incomplete nom cfb xml codex.context buf (ground arith)) e)
  ]
