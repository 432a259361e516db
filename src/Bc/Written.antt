-- ===== src/Bc/Written.antt =====
-- Baichuan messages: the bytes of an extension and of a payload, and what they are read as.
use bairelay.Base.{
  ℕ, ◌/◌, ◌%◌, ◌≤◌, ◌≡◌, ◌≢◌, refl, sym, ap, ◌∙◌, true, false, List, [], Option, none, some, length,
  ltb, ◌==◌, arith,
}
use bairelay.Wire.Parsed.{done}
use bairelay.Wire.Nom.{Nom}
use bairelay.Bc.Crypto.{
  AesCfb, EncryptionProtocol, unencrypted, bc_encrypt, aes, full_aes, decrypt, decrypt-encrypt,
  encrypt, length-encrypt,
}
use bairelay.Bc.Model.{BcPayloads, bc_xml, binary, BcMeta, BcHeader, from_meta}
use bairelay.Bc.Context.{
  BcXmls, BcContext, payload_protocol, enc_protocol, binary_payload, is_binary, encrypted_len,
}
use bairelay.Bc.Parse.{
  max_bc_body_len, unwrap_or_default, processed_ext_buf, parse_extension, parse_payload,
}
use bairelay.Bc.Print.{bc_ext_bytes, bc_payload_bytes, payload_offset_of}
use bairelay.Bc.Fits.{FitsOffset, FitsMeta, FitsExt, FitsPayload}

module _ (nom : Nom) (cfb : AesCfb) (xml : BcXmls) where
  processed_ext_buf_lem :
      (protocol : EncryptionProtocol) (channel_id : ℕ) (buf : List ℕ)
      → processed_ext_buf nom cfb xml protocol channel_id buf ≡ decrypt cfb protocol channel_id buf
  unfolding processed_ext_buf decrypt
  processed_ext_buf_lem unencrypted channel_id buf = refl
  processed_ext_buf_lem bc_encrypt channel_id buf = refl
  processed_ext_buf_lem (aes key iv) channel_id buf = refl
  processed_ext_buf_lem (full_aes key iv) channel_id buf = refl

  parse_extension_reads :
      (context : BcContext) (header : BcHeader) (ext : xml.Extension) (buf rest : List ℕ)
      → ltb 0 (length buf) ≡ true
      → xml.try_parse_ext (decrypt cfb context.encryption_protocol header.channel_id buf) ≡ some ext
      → parse_extension nom cfb xml context header (length buf) buf rest ≡ done (some ext) rest
  unfolding parse_extension
  parse_extension_reads context header ext buf rest t r =
      rw (t, processed_ext_buf_lem context.encryption_protocol header.channel_id buf)
        (rw (r, parse_extension) refl)

  -- The bytes of an extension, the offset that the header has for them, and what they are read as.
  pub record WrittenExt (context : BcContext) (meta : BcMeta) (ext : Option xml.Extension)
      (bytes : List ℕ) : Type 0 where
    pub buf : List ℕ
    pub writes :
        bc_ext_bytes cfb xml
          (enc_protocol context.encryption_protocol meta.msg_id)
          meta.channel_id
          ext
        ≡ some buf
    pub size : length buf ≡ length bytes
    pub offset : FitsOffset meta.class (payload_offset_of cfb xml meta.class ext (length buf))
    pub starts :
        unwrap_or_default (payload_offset_of cfb xml meta.class ext (length buf)) ≡ length buf
    pub reads :
        (header : BcHeader) (rest : List ℕ)
        → header.channel_id ≡ meta.channel_id
        → parse_extension nom cfb xml context header (length buf) buf rest ≡ done ext rest

  pub WrittenExt-bc_ext_bytes :
      (context : BcContext) (meta : BcMeta) (ext : Option xml.Extension) (bytes : List ℕ)
      → FitsExt xml meta ext bytes
      → length bytes ≤ max_bc_body_len
      → WrittenExt context meta ext bytes
  unfolding bc_ext_bytes payload_offset_of parse_extension enc_protocol
  WrittenExt-bc_ext_bytes context meta none bytes e small = record {
    buf = [];
    writes = refl;
    size = ap length (sym e);
    offset = ground arith;
    starts = ground arith;
    reads = λ header rest h. refl;
  }
  WrittenExt-bc_ext_bytes context meta (some ext) bytes (w, r, long, has, other) small =
      let p = context.encryption_protocol in
      let buf = encrypt cfb p meta.channel_id bytes in
      let size = length-encrypt cfb p meta.channel_id bytes in
      let plain : (meta.msg_id == 1) ≡ false = ground (arith, other) in
      let wrap : length buf % 4294967296 ≡ length buf = omega (arith, size, small) in
      record {
        buf = buf;
        writes = rw plain (rw (w, bc_ext_bytes) refl);
        size = size;
        offset = rw has (has, omega (arith, wrap, size, small));
        starts = rw has wrap;
        reads = λ header rest h.
            parse_extension_reads context header ext buf rest (ground (arith, size, long)) (
              ap xml.try_parse_ext
                (ap (λ k. decrypt cfb p k buf) h ∙ decrypt-encrypt cfb p meta.channel_id bytes)
              ∙ r);
      }

  parse_payload_xml :
      (context : BcContext) (header : BcHeader) (ext : Option xml.Extension) (tree : xml.BcXml)
      (buf rest : List ℕ)
      → ltb 0 (length buf) ≡ true
      → is_binary xml context header.msg_num ext ≡ false
      → xml.try_parse_xml (decrypt cfb (payload_protocol context header) header.channel_id buf)
        ≡ some tree
      → parse_payload nom cfb xml context header ext (length buf) buf rest
        ≡ done (some (bc_xml tree)) rest
  unfolding parse_payload
  parse_payload_xml context header ext tree buf rest t b r = rw (t, b) (rw (r, parse_payload) refl)

  binary_payload_raw :
      (protocol : EncryptionProtocol) (processed raw : List ℕ)
      → binary_payload protocol none processed raw ≡ raw
  unfolding binary_payload
  binary_payload_raw unencrypted processed raw = refl
  binary_payload_raw bc_encrypt processed raw = refl
  binary_payload_raw (aes key iv) processed raw = refl
  binary_payload_raw (full_aes key iv) processed raw = refl

  parse_payload_binary :
      (context : BcContext) (header : BcHeader) (ext : Option xml.Extension) (raw rest : List ℕ)
      → ltb 0 (length raw) ≡ true
      → is_binary xml context header.msg_num ext ≡ true
      → encrypted_len xml ext ≡ none
      → parse_payload nom cfb xml context header ext (length raw) raw rest
        ≡ done (some (binary raw)) rest
  unfolding parse_payload
  parse_payload_binary context header ext raw rest t b n =
      rw (t, b, n) (rw (binary_payload_raw context.encryption_protocol _ raw) refl)

  payload_protocol-from_meta :
      (context : BcContext) (meta : BcMeta) (len : ℕ) (offset : Option ℕ)
      → FitsMeta meta
      → (meta.msg_id ≡ 1 → meta.response_code / 256 ≢ 0xdd)
      → payload_protocol context (from_meta meta len offset)
        ≡ enc_protocol context.encryption_protocol meta.msg_id
  unfolding payload_protocol from_meta enc_protocol
  payload_protocol-from_meta context meta len offset v h = ground (arith, v.response_code, h)

  pub record WrittenPayload (context : BcContext) (meta : BcMeta) (ext : Option xml.Extension)
      (payload : Option (BcPayloads xml.BcXml)) (bytes : List ℕ) : Type 0 where
    pub buf : List ℕ
    pub writes :
        bc_payload_bytes cfb xml
          (enc_protocol context.encryption_protocol meta.msg_id)
          meta.channel_id
          payload
        ≡ some buf
    pub size : length buf ≡ length bytes
    pub reads :
        (len : ℕ) (offset : Option ℕ) (rest : List ℕ)
        → parse_payload nom cfb xml context (from_meta meta len offset) ext (length buf) buf rest
          ≡ done payload rest

  pub WrittenPayload-bc_payload_bytes :
      (context : BcContext) (meta : BcMeta) (ext : Option xml.Extension)
      (payload : Option (BcPayloads xml.BcXml)) (bytes : List ℕ)
      → FitsMeta meta
      → (meta.msg_id ≡ 1 → meta.response_code / 256 ≢ 0xdd)
      → FitsPayload xml context meta ext payload bytes
      → WrittenPayload context meta ext payload bytes
  unfolding bc_payload_bytes parse_payload from_meta
  WrittenPayload-bc_payload_bytes context meta ext none bytes v code e = record {
    buf = [];
    writes = refl;
    size = ap length (sym e);
    reads = λ len offset rest. refl;
  }
  WrittenPayload-bc_payload_bytes context meta ext (some (bc_xml tree)) bytes v code
        (w, r, long, text) =
      let p = enc_protocol context.encryption_protocol meta.msg_id in
      let buf = encrypt cfb p meta.channel_id bytes in
      let size = length-encrypt cfb p meta.channel_id bytes in
      record {
        buf = buf;
        writes = rw (w, bc_payload_bytes) refl;
        size = size;
        reads = λ len offset rest.
            parse_payload_xml context (from_meta meta len offset) ext tree buf rest
              (ground (arith, size, long)) text
              (ap xml.try_parse_xml (
                  ap (λ q. decrypt cfb q meta.channel_id buf)
                    (payload_protocol-from_meta context meta len offset v code)
                  ∙ decrypt-encrypt cfb p meta.channel_id bytes)
                ∙ r);
      }
  WrittenPayload-bc_payload_bytes context meta ext (some (binary raw)) bytes v code
        (e, long, bin, plain) =
      record {
        buf = raw;
        writes = refl;
        size = ap length (sym e);
        reads = λ len offset rest.
            parse_payload_binary context (from_meta meta len offset) ext raw rest
              (ground (arith, ap length e, long)) bin plain;
      }
