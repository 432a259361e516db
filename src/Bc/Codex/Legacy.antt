-- ===== src/Bc/Codex/Legacy.antt =====
-- The one legacy message that has a body, under the codec of Baichuan messages.
use bairelay.Base.{
  ℕ, ◌/◌, ◌≡◌, ◌≢◌, refl, ap, ◌∙◌, true, ◌&&◌, List, [], ◌++◌, append_assoc, none, some, length,
  length-append, length-replicate, replicate, ◌==◌, arith,
}
use bairelay.Base.HashMap.{String}
use bairelay.Wire.Parsed.{done, error, then_reads, error_stops}
use bairelay.Wire.Nom.{Nom, accept}
use bairelay.Wire.CookieFactory.{CookieFactory}
use bairelay.Wire.Words.{take_then}
use bairelay.Bc.Crypto.{AesCfb, Md5}
use bairelay.Bc.Model.{
  Bc, legacy_msg, login_msg, BcMeta, from_meta, to_meta, is_modern, has_payload_offset,
}
use bairelay.Bc.Context.{BcXmls, BcContext}
use bairelay.Bc.Parse.{
  is_magic, from_utf8, text_of, hex32, bc_legacy_login_msg, bc_header, bc_body, bc_msg,
}
use bairelay.Bc.Print.{bc_legacy, header_bytes, body_bytes, serialize_bc}
use bairelay.Bc.Fits.{FitsMeta, bc_header_reads}
use bairelay.Bc.Codex.{
  BcCodex, frame, malformed, arm, signed_login_aes, encode, settle, outcome, decode,
}
use bairelay.Bc.Codex.Framing.{settle_plain}

-- A legacy login with names of 32 bytes of UTF-8.
pub record FitsLogin (meta : BcMeta) (username password : String) : Type 0 where
  pub fields : FitsMeta meta
  pub legacy_class : meta.class ≡ 0x6514
  pub login : meta.msg_id ≡ 1
  pub no_negotiation : meta.response_code / 256 ≢ 0xdd
  pub username_size : length username ≡ 32
  pub username_text : from_utf8 username ≡ some username
  pub password_size : length password ≡ 32
  pub password_text : from_utf8 password ≡ some password

module _ (nom : Nom) where
  hex32_reads :
      (text rest : List ℕ)
      → length text ≡ 32
      → from_utf8 text ≡ some text
      → hex32 nom (text ++ rest) ≡ done text rest
  unfolding hex32 text_of
  hex32_reads text rest size e =
      take_then nom 32 text rest _ (omega (arith, size)) (rw (e, text_of) refl)

  bc_legacy_login_msg_reads :
      (meta : BcMeta) (username password rest : List ℕ)
      → FitsLogin meta username password
      → bc_legacy_login_msg nom (username ++ (password ++ rest))
        ≡ done (login_msg username password) rest
  unfolding bc_legacy_login_msg
  bc_legacy_login_msg_reads meta username password rest v =
      then_reads _ _ _ (hex32_reads username _ v.username_size v.username_text)
        (then_reads _ _ _ (hex32_reads password rest v.password_size v.password_text) refl)

module _ (nom : Nom) (cf : CookieFactory) (cfb : AesCfb) (xml : BcXmls) where
  open xml use {Extension, BcXml}

  bc_msg_zeros :
      (context : BcContext) (rest : List ℕ)
      → bc_msg nom cfb xml context (replicate 1772 0 ++ rest) ≡ error
  unfolding bc_msg bc_header
  bc_msg_zeros context rest = error_stops _ _ _ (
      error_stops _ _ _ (
        nom.verify_reads nom.le_u32 is_magic _
        ∙ ap (accept is_magic) (nom.le_u32_reads 0 0 0 0 (replicate 1768 0 ++ rest))))

  decode_done :
      (md5 : Md5) (codex : BcCodex) (src : List ℕ) (bc : Bc Extension BcXml) (rest : List ℕ)
      → bc_msg nom cfb xml codex.context src ≡ done bc rest
      → decode xml nom cfb md5 codex src ≡ (settle xml md5 codex bc, rest)
  unfolding decode outcome
  decode_done md5 codex src bc rest e = ap (λ r. outcome xml md5 codex r src) e

  decode_error :
      (md5 : Md5) (codex : BcCodex) (src : List ℕ)
      → bc_msg nom cfb xml codex.context src ≡ error
      → (decode xml nom cfb md5 codex src).0.0 ≡ malformed
  unfolding decode outcome
  decode_error md5 codex src e = ap (λ r. (outcome xml md5 codex r src).0.0) e

  -- A legacy login whose fields fit the wire, with names of 32 bytes of UTF-8 and a response
  -- code that negotiates nothing, is encoded in full, and decoded to the same message, but the
  -- 1772 zeros that end its body are left in the buffer, and the next call of the decoder fails
  -- on them.
  pub decode-encode_legacy :
      (md5 : Md5) (codex peer : BcCodex) (meta : BcMeta) (username password : String)
      (rest : List ℕ)
      → FitsLogin meta username password
      → let login : Bc Extension BcXml = record {
        meta = meta;
        body = legacy_msg (login_msg username password);
      } in
        (bytes : List ℕ) × (encode xml cfb cf codex login [] ≡ (codex, some bytes))
        × (let d = decode xml nom cfb md5 peer (bytes ++ rest) in
            (d.0.0 ≡ frame login)
            × (d.1 ≡ replicate 1772 0 ++ rest)
            × ((decode xml nom cfb md5 d.0.1 d.1).0.0 ≡ malformed))
  unfolding encode arm signed_login_aes serialize_bc body_bytes bc_legacy bc_msg bc_body from_meta
      to_meta is_modern has_payload_offset
  decode-encode_legacy md5 codex peer meta username password rest v =
      let login : Bc Extension BcXml = record {
        meta = meta;
        body = legacy_msg (login_msg username password);
      } in
      let body = username ++ (password ++ replicate 1772 0) in
      let sizes : ((length username == 32) && (length password == 32)) ≡ true =
        ground (arith, v.username_size, v.password_size) in
      let len : length body ≡ 1836 = omega (
        arith,
        v.username_size,
        v.password_size,
        length-append username (password ++ replicate 1772 0),
        length-append password (replicate {A = ℕ} 1772 0),
        length-replicate {A = ℕ} 1772 0,
      ) in
      let bytes = header_bytes cf (from_meta meta 1836 none) ++ body in
      let class : (meta.class == 0x6514) ≡ true = ground (arith, v.legacy_class) in
      let id : (meta.msg_id == 1) ≡ true = ground (arith, v.login) in
      let reads : bc_msg nom cfb xml peer.context (bytes ++ rest)
          ≡ done login (replicate 1772 0 ++ rest) =
        simp append_assoc (
          then_reads _ _ _
            (bc_header_reads nom cf meta 1836 none _ v.fields (omega arith)
              (ground (arith, v.legacy_class)))
            (then_reads _ _ _
              (rw class (
                rw id (
                  then_reads _ _ _ (bc_legacy_login_msg_reads nom meta username password _ v)
                    refl)))
              refl)) in
      let d = decode xml nom cfb md5 peer (bytes ++ rest) in
      let first =
        decode_done md5 peer (bytes ++ rest) login (replicate 1772 0 ++ rest) reads
        ∙ ap (λ r. (r, replicate 1772 0 ++ rest))
            (settle_plain xml md5 peer login (λ e. v.no_negotiation)) in
      (
        bytes,
        rw sizes (rw len refl),
        (
          ap (λ r. r.0.0) first,
          ap (λ r. r.1) first,
          ap (λ src. (decode xml nom cfb md5 d.0.1 src).0.0) (ap (λ r. r.1) first)
              ∙ decode_error md5 d.0.1 (replicate 1772 0 ++ rest) (bc_msg_zeros d.0.1.context rest),
        ),
      )
