-- ===== src/Bc/RoundTrip.antt =====
-- Baichuan messages: reading back what was written.
use bairelay.Base.{
  ℕ, ◌+◌, ◌-◌, ◌%◌, ◌≡◌, refl, false, List, ◌++◌, append_assoc, some, length, length-append, ltb,
  ◌==◌, arith,
}
use bairelay.Wire.Parsed.{done, then_reads}
use bairelay.Wire.Nom.{Nom}
use bairelay.Wire.CookieFactory.{CookieFactory}
use bairelay.Wire.Words.{take_then}
use bairelay.Bc.Crypto.{AesCfb}
use bairelay.Bc.Model.{Bc, modern_msg, ModernMsg, BcMeta, BcHeader, is_modern, to_meta, from_meta}
use bairelay.Bc.Context.{BcXmls, BcContext, enc_protocol}
use bairelay.Bc.Parse.{
  unwrap_or_default, parse_extension, parse_payload, bc_modern_msg, bc_body, bc_msg,
}
use bairelay.Bc.Print.{header_bytes, payload_offset_of, body_bytes, serialize_bc}
use bairelay.Bc.Fits.{FitsModern, bc_header_reads}
use bairelay.Bc.Written.{WrittenExt-bc_ext_bytes, WrittenPayload-bc_payload_bytes}

module _ (nom : Nom) (cf : CookieFactory) (cfb : AesCfb) (xml : BcXmls) where
  bc_modern_msg_reads :
      (context : BcContext) (header : BcHeader) (modern : ModernMsg xml.Extension xml.BcXml)
      (ext_buf payload_buf rest : List ℕ)
      → unwrap_or_default header.payload_offset ≡ length ext_buf
      → header.body_len ≡ length ext_buf + length payload_buf
      → ((r : List ℕ)
          → parse_extension nom cfb xml context header (length ext_buf) ext_buf r
            ≡ done modern.extension r)
      → ((r : List ℕ)
          → parse_payload nom cfb xml context header modern.extension
              (length payload_buf)
              payload_buf
              r
            ≡ done modern.payload r)
      → bc_modern_msg nom cfb xml context header (ext_buf ++ (payload_buf ++ rest))
        ≡ done modern rest
  unfolding bc_modern_msg
  bc_modern_msg_reads context header modern ext_buf payload_buf rest start len ext payload =
      let t : ltb header.body_len (length ext_buf) ≡ false = ground (arith, len) in
      let d : header.body_len - length ext_buf ≡ length payload_buf = omega (arith, len) in
      rw start (
        rw t (
          rw d (
            take_then nom _ ext_buf _ _ refl (
              take_then nom _ payload_buf _ _ refl
                (then_reads _ _ _ (ext rest) (then_reads _ _ _ (payload rest) refl))))))

  -- A modern message that fits, written under the protocol of the session, is read back by the other
  -- side of the session as it was.
  pub bc_msg-serialize_bc :
      (context : BcContext) (meta : BcMeta) (modern : ModernMsg xml.Extension xml.BcXml)
      (rest : List ℕ)
      → FitsModern xml context meta modern
      → let bc : Bc xml.Extension xml.BcXml = record { meta = meta; body = modern_msg modern } in
        (bytes : List ℕ) × (serialize_bc cfb xml cf bc
            (enc_protocol context.encryption_protocol meta.msg_id)
          ≡ some bytes)
        × (bc_msg nom cfb xml context (bytes ++ rest) ≡ done bc rest)
  unfolding serialize_bc body_bytes bc_msg bc_body to_meta from_meta is_modern
  bc_msg-serialize_bc context meta modern rest v =
      let e =
        WrittenExt-bc_ext_bytes nom cfb xml context meta modern.extension v.ext_bytes v.ext
          (omega (arith, v.size)) in
      let p =
        WrittenPayload-bc_payload_bytes nom cfb xml context meta modern.extension modern.payload
          v.payload_bytes v.fields v.no_negotiation v.payload in
      let body = e.buf ++ p.buf in
      let len : length body ≡ length e.buf + length p.buf = length-append e.buf p.buf in
      let wrap : length body % 4294967296 ≡ length body =
        omega (arith, len, e.size, p.size, v.size) in
      let offset = payload_offset_of cfb xml meta.class modern.extension (length e.buf) in
      let t : (meta.class == 0x6514) ≡ false = ground (arith, v.modern_class) in
      (
        header_bytes cf (from_meta meta (length body) offset) ++ body,
        rw (e.writes, serialize_bc) (rw (p.writes, serialize_bc) (rw wrap refl)),
        simp append_assoc (
            then_reads _ _ _
              (bc_header_reads nom cf meta (length body) offset _ v.fields
                (omega (arith, len, e.size, p.size, v.size)) e.offset)
              (then_reads _ _ _
                (rw t (
                  then_reads _ _ _
                    (bc_modern_msg_reads context (from_meta meta (length body) offset) modern e.buf
                      p.buf rest e.starts len (λ r. e.reads _ r refl) (λ r. p.reads _ _ r))
                    refl))
                refl)),
      )
