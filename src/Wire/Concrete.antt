-- ===== src/Wire/Concrete.antt =====
-- Functions that satisfy the laws of the two records: the behaviour that both crates document.
use bairelay.Base.{
  ℕ, ◌+◌, ◌*◌, ◌/◌, ◌%◌, ◌<◌, ◌≡◌, refl, List, [], ◌∷◌, ◌++◌, length, length-append, take, drop,
  take-append_length, drop-append_length, le→leb, leb, if◌then◌else◌, arith,
}
use bairelay.Wire.Parsed.{Parser, done, incomplete}
use bairelay.Wire.Nom.{Nom, accept}
use bairelay.Wire.CookieFactory.{CookieFactory}

abbrev pub read_u8 : Parser ℕ
read_u8 [] = incomplete
read_u8 (a ∷ rest) = done a rest

abbrev pub read_u16 : Parser ℕ
read_u16 (a ∷ b ∷ rest) = done (a + 256 * b) rest
read_u16 _ = incomplete

abbrev pub read_u32 : Parser ℕ
read_u32 (a ∷ b ∷ c ∷ d ∷ rest) = done (a + 256 * b + 65536 * c + 16777216 * d) rest
read_u32 _ = incomplete

pub read_u16_short : (buf : List ℕ) → length buf < 2 → read_u16 buf ≡ incomplete
read_u16_short [] h = refl
read_u16_short (a ∷ []) h = refl
read_u16_short (a ∷ b ∷ rest) h = absurd (omega arith)

pub read_u32_short : (buf : List ℕ) → length buf < 4 → read_u32 buf ≡ incomplete
read_u32_short [] h = refl
read_u32_short (a ∷ []) h = refl
read_u32_short (a ∷ b ∷ []) h = refl
read_u32_short (a ∷ b ∷ c ∷ []) h = refl
read_u32_short (a ∷ b ∷ c ∷ d ∷ rest) h = absurd (omega arith)

abbrev pub read_take : ℕ → Parser (List ℕ)
read_take n buf = if leb n (length buf) then done (take n buf) (drop n buf) else incomplete

pub read_take_reads : (xs rest : List ℕ) → read_take (length xs) (xs ++ rest) ≡ done xs rest
read_take_reads xs rest =
    rw (le→leb (length xs) (length (xs ++ rest)) (omega (arith, length-append xs rest)))
      (rw (take-append_length xs rest, drop-append_length xs rest))

pub read_take_short : (n : ℕ) (buf : List ℕ) → length buf < n → read_take n buf ≡ incomplete
read_take_short n buf h = ground arith

abbrev pub streaming : Nom
streaming = record {
  le_u8 = read_u8;
  le_u16 = read_u16;
  le_u32 = read_u32;
  take = read_take;
  verify = λ p f buf. accept f (p buf);
  le_u8_reads = λ a rest. refl;
  le_u8_short = refl;
  le_u16_reads = λ a b rest. refl;
  le_u16_short = read_u16_short;
  le_u32_reads = λ a b c d rest. refl;
  le_u32_short = read_u32_short;
  take_reads = read_take_reads;
  take_short = read_take_short;
  verify_reads = λ p f buf. refl;
}

abbrev pub writer : CookieFactory
writer = record {
  le_u8 = λ n. n % 256 ∷ [];
  le_u16 = λ n. n % 256 ∷ n / 256 % 256 ∷ [];
  le_u32 = λ n. n % 256 ∷ n / 256 % 256 ∷ n / 65536 % 256 ∷ n / 16777216 % 256 ∷ [];
  le_u8_writes = λ n. refl;
  le_u16_writes = λ n. refl;
  le_u32_writes = λ n. refl;
}
