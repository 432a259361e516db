-- ===== src/Bc/Crypto.antt =====
-- The encryption of src/baichuan/bc/crypto.rs, and `make_aeskey` of baichuan/bc_protocol/credentials.rs.
use Prim.Native.Nat.{bit_xor}
use bairelay.Base.{
  ℕ, suc, ◌%◌, ◌≡◌, refl, ap, List, [], ◌∷◌, ◌++◌, Option, none, some, length, leb, take, drop,
  replicate, if◌then◌else◌,
}
use bairelay.Base.HashMap.{String}
use bairelay.Base.Xor.{bit_xor_mask}

-- The crates `aes` and `cfb_mode`: AES-128 in CFB mode under a key and an initialisation vector.
pub record AesCfb : Type 0 where
  pub encrypt_cfb : (key iv buf : List ℕ) → List ℕ
  pub decrypt_cfb : (key iv buf : List ℕ) → List ℕ
  pub decrypt-encrypt_cfb :
      (key iv buf : List ℕ) → decrypt_cfb key iv (encrypt_cfb key iv buf) ≡ buf
  pub length-encrypt_cfb : (key iv buf : List ℕ) → length (encrypt_cfb key iv buf) ≡ length buf

-- `format!("{:X}", md5::compute(phrase))`: the digest in 32 hexadecimal digits.
pub record Md5 : Type 0 where
  pub compute : List ℕ → List ℕ
  pub length-compute : (phrase : List ℕ) → length (compute phrase) ≡ 32

abbrev pub xml_key : List ℕ
xml_key = 0x1F ∷ 0x2D ∷ 0x3C ∷ 0x4B ∷ 0x5A ∷ 0x69 ∷ 0x78 ∷ 0xFF ∷ []

-- "0123456789abcdef"
abbrev pub const_iv : List ℕ
const_iv =
    0x30 ∷ 0x31 ∷ 0x32 ∷ 0x33 ∷ 0x34 ∷ 0x35 ∷ 0x36 ∷ 0x37 ∷ 0x38 ∷ 0x39 ∷ 0x61 ∷ 0x62 ∷ 0x63 ∷ 0x64
    ∷ 0x65 ∷ 0x66 ∷ []

-- The pair of an encryptor and a decryptor is the key and the vector that both are made of.
pub data EncryptionProtocol : Type 0 where
  unencrypted : EncryptionProtocol
  bc_encrypt : EncryptionProtocol
  aes : (key iv : List ℕ) → EncryptionProtocol
  full_aes : (key iv : List ℕ) → EncryptionProtocol

-- `EncryptionProtocol::aes`, `full_aes_with_iv` and `full_aes`
unfoldable pub new_aes : List ℕ → EncryptionProtocol
new_aes key = aes key const_iv

unfoldable pub full_aes_with_iv : List ℕ → List ℕ → EncryptionProtocol
full_aes_with_iv key iv = full_aes key iv

unfoldable pub new_full_aes : List ℕ → EncryptionProtocol
new_full_aes key = full_aes key const_iv

-- `key.cycle().zip(buf).map(|(key, i)| *i ^ key ^ mask)`: `key` is what is left of the key in this
-- cycle.
unfoldable pub xor_cycle : List ℕ → ℕ → List ℕ → List ℕ → List ℕ
xor_cycle whole mask key [] = []
xor_cycle whole mask (k ∷ key) (i ∷ buf) = bit_xor (bit_xor i k) mask ∷ xor_cycle whole mask key buf
xor_cycle [] mask [] (i ∷ buf) = []
xor_cycle (k ∷ whole) mask [] (i ∷ buf) =
    bit_xor (bit_xor i k) mask ∷ xor_cycle (k ∷ whole) mask whole buf

module _ (cfb : AesCfb) where
  unfoldable pub decrypt : EncryptionProtocol → ℕ → List ℕ → List ℕ
  decrypt unencrypted offset buf = buf
  decrypt bc_encrypt offset buf = xor_cycle xml_key (offset % 256) (drop (offset % 8) xml_key) buf
  decrypt (aes key iv) offset buf = cfb.decrypt_cfb key iv buf
  decrypt (full_aes key iv) offset buf = cfb.decrypt_cfb key iv buf

  unfoldable pub encrypt : EncryptionProtocol → ℕ → List ℕ → List ℕ
  unfolding decrypt
  encrypt unencrypted offset buf = decrypt unencrypted offset buf
  encrypt bc_encrypt offset buf = decrypt bc_encrypt offset buf
  encrypt (aes key iv) offset buf = cfb.encrypt_cfb key iv buf
  encrypt (full_aes key iv) offset buf = cfb.encrypt_cfb key iv buf

pub record Credentials : Type 0 where
  pub username : String
  pub password : Option String

abbrev password_or_empty : Option String → String
password_or_empty none = []
password_or_empty (some password) = password

unfoldable pub make_aeskey : Md5 → Credentials → String → List ℕ
make_aeskey md5 credentials nonce =
    let key_phrase = nonce ++ (0x2d ∷ password_or_empty credentials.password) in
    let key_phrase_hash = md5.compute key_phrase ++ (0 ∷ []) in
    if leb 16 (length key_phrase_hash) then take 16 key_phrase_hash else replicate 16 0

xor_cycle_twice :
    (k : ℕ) (whole : List ℕ) (mask : ℕ) (key buf : List ℕ)
    → xor_cycle (k ∷ whole) mask key (xor_cycle (k ∷ whole) mask key buf) ≡ buf
unfolding xor_cycle
xor_cycle_twice k whole mask key [] = refl
xor_cycle_twice k whole mask (j ∷ key) (i ∷ buf) =
    rw (bit_xor_mask i j mask, xor_cycle_twice k whole mask key buf)
xor_cycle_twice k whole mask [] (i ∷ buf) =
    rw (bit_xor_mask i k mask, xor_cycle_twice k whole mask whole buf)

length-xor_cycle :
    (k : ℕ) (whole : List ℕ) (mask : ℕ) (key buf : List ℕ)
    → length (xor_cycle (k ∷ whole) mask key buf) ≡ length buf
unfolding xor_cycle
length-xor_cycle k whole mask key [] = refl
length-xor_cycle k whole mask (j ∷ key) (i ∷ buf) = ap suc (length-xor_cycle k whole mask key buf)
length-xor_cycle k whole mask [] (i ∷ buf) = ap suc (length-xor_cycle k whole mask whole buf)

module _ (cfb : AesCfb) where
  pub decrypt-encrypt :
      (protocol : EncryptionProtocol) (offset : ℕ) (buf : List ℕ)
      → decrypt cfb protocol offset (encrypt cfb protocol offset buf) ≡ buf
  unfolding decrypt encrypt
  decrypt-encrypt unencrypted offset buf = refl
  decrypt-encrypt bc_encrypt offset buf = xor_cycle_twice _ _ _ _ buf
  decrypt-encrypt (aes key iv) offset buf = cfb.decrypt-encrypt_cfb key iv buf
  decrypt-encrypt (full_aes key iv) offset buf = cfb.decrypt-encrypt_cfb key iv buf

  pub length-encrypt :
      (protocol : EncryptionProtocol) (offset : ℕ) (buf : List ℕ)
      → length (encrypt cfb protocol offset buf) ≡ length buf
  unfolding decrypt encrypt
  length-encrypt unencrypted offset buf = refl
  length-encrypt bc_encrypt offset buf = length-xor_cycle _ _ _ _ buf
  length-encrypt (aes key iv) offset buf = cfb.length-encrypt_cfb key iv buf
  length-encrypt (full_aes key iv) offset buf = cfb.length-encrypt_cfb key iv buf
