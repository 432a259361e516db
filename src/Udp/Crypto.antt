-- ===== src/Udp/Crypto.antt =====
-- The masking of discovery packets in src/baichuan/bcudp/xml_crypto.rs, and the checksum of crc.rs.
use Prim.Native.Nat.{bit_xor}
use bairelay.Base.{ℕ, suc, ◌+◌, ◌/◌, ◌%◌, ◌<◌, ◌≡◌, refl, ap, List, [], ◌∷◌, length, arith}
use bairelay.Base.Xor.{bit_xor_twice, bit_xor_bound}

abbrev pub xml_key : List ℕ
xml_key =
    0x1f2d3c4b ∷ 0x5a6c7f8d ∷ 0x38172e4b ∷ 0x8271635a ∷ 0x863f1a2b ∷ 0xa5c6f7d8 ∷ 0x8371e1b4
    ∷ 0x17f2d3a5 ∷ []

-- `i.wrapping_add(offset).to_le_bytes()` of every word of the key.
unfoldable pub key_bytes : ℕ → List ℕ → List ℕ
key_bytes offset [] = []
key_bytes offset (i ∷ is) =
    let w = (i + offset) % 4294967296 in
    w % 256 ∷ w / 256 % 256 ∷ w / 65536 % 256 ∷ w / 16777216 % 256 ∷ key_bytes offset is

-- `buf.iter().zip(key.cycle()).map(xor)`: `key` is what is left of the key in this cycle, and the key
-- starts again where that is empty. An empty key yields nothing.
unfoldable pub xor_cycle : List ℕ → List ℕ → List ℕ → List ℕ
xor_cycle whole key [] = []
xor_cycle whole (k ∷ key) (b ∷ buf) = bit_xor k b ∷ xor_cycle whole key buf
xor_cycle [] [] (b ∷ buf) = []
xor_cycle (k ∷ whole) [] (b ∷ buf) = bit_xor k b ∷ xor_cycle (k ∷ whole) whole buf

unfoldable pub decrypt : ℕ → List ℕ → List ℕ
decrypt offset buf = xor_cycle (key_bytes offset xml_key) (key_bytes offset xml_key) buf

unfoldable pub encrypt : ℕ → List ℕ → List ℕ
unfolding decrypt
encrypt offset buf = decrypt offset buf

xor_cycle_twice :
    (k : ℕ) (whole key buf : List ℕ)
    → xor_cycle (k ∷ whole) key (xor_cycle (k ∷ whole) key buf) ≡ buf
unfolding xor_cycle
xor_cycle_twice k whole key [] = refl
xor_cycle_twice k whole (j ∷ key) (b ∷ buf) =
    rw (bit_xor_twice j b, xor_cycle_twice k whole key buf)
xor_cycle_twice k whole [] (b ∷ buf) = rw (bit_xor_twice k b, xor_cycle_twice k whole whole buf)

-- The masking of discovery packets undoes itself under the same offset, whatever the offset and
-- the bytes.
pub decrypt-encrypt : (offset : ℕ) (buf : List ℕ) → decrypt offset (encrypt offset buf) ≡ buf
unfolding decrypt encrypt key_bytes
decrypt-encrypt offset buf = xor_cycle_twice _ _ _ buf

length-xor_cycle :
    (k : ℕ) (whole key buf : List ℕ) → length (xor_cycle (k ∷ whole) key buf) ≡ length buf
unfolding xor_cycle
length-xor_cycle k whole key [] = refl
length-xor_cycle k whole (j ∷ key) (b ∷ buf) = ap suc (length-xor_cycle k whole key buf)
length-xor_cycle k whole [] (b ∷ buf) = ap suc (length-xor_cycle k whole whole buf)

pub length-encrypt : (offset : ℕ) (buf : List ℕ) → length (encrypt offset buf) ≡ length buf
unfolding decrypt encrypt key_bytes
length-encrypt offset buf = length-xor_cycle _ _ _ buf

-- `crc32fast::Hasher::new_with_initial(init)`, `update(payload)`, `finalize()`: a u32.
pub record Crc32fast : Type 0 where
  pub finalize : ℕ → List ℕ → ℕ
  pub finalize_fits : (init : ℕ) (payload : List ℕ) → finalize init payload < 4294967296

unfoldable pub calc_crc : Crc32fast → List ℕ → ℕ
calc_crc crc payload = bit_xor (crc.finalize 0xffffffff payload) 0xffffffff

pub calc_crc_fits : (crc : Crc32fast) (payload : List ℕ) → calc_crc crc payload < 4294967296
unfolding calc_crc
calc_crc_fits crc payload =
    bit_xor_bound 32 (crc.finalize 0xffffffff payload) 0xffffffff
      (crc.finalize_fits 0xffffffff payload) (omega arith)
