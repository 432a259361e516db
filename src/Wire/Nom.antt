-- ===== src/Wire/Nom.antt =====
-- The parsers of `nom::number::streaming`, `nom::bytes::streaming::take` and `nom::combinator::verify`.
use bairelay.Base.{ℕ, ◌+◌, ◌*◌, ◌<◌, ◌≡◌, Bool, List, [], ◌∷◌, ◌++◌, length, if◌then◌else◌}
use bairelay.Wire.Parsed.{Parsed, Parser, done, incomplete, error, failure}

-- A value that the predicate refuses is an `Err::Error`; other results pass through.
abbrev pub accept : {A : Type 0} → (A → Bool) → Parsed A → Parsed A
accept f (done a rest) = if f a then done a rest else error
accept f incomplete = incomplete
accept f error = error
accept f failure = failure

pub record Nom : Type 1 where
  pub le_u8 : Parser ℕ
  pub le_u16 : Parser ℕ
  pub le_u32 : Parser ℕ
  pub take : ℕ → Parser (List ℕ)
  pub verify : {A : Type 0} → Parser A → (A → Bool) → Parser A
  pub le_u8_reads : (a : ℕ) (rest : List ℕ) → le_u8 (a ∷ rest) ≡ done a rest
  pub le_u8_short : le_u8 [] ≡ incomplete
  pub le_u16_reads : (a b : ℕ) (rest : List ℕ) → le_u16 (a ∷ b ∷ rest) ≡ done (a + 256 * b) rest
  pub le_u16_short : (buf : List ℕ) → length buf < 2 → le_u16 buf ≡ incomplete
  pub le_u32_reads :
      (a b c d : ℕ) (rest : List ℕ)
      → le_u32 (a ∷ b ∷ c ∷ d ∷ rest) ≡ done (a + 256 * b + 65536 * c + 16777216 * d) rest
  pub le_u32_short : (buf : List ℕ) → length buf < 4 → le_u32 buf ≡ incomplete
  pub take_reads : (xs rest : List ℕ) → take (length xs) (xs ++ rest) ≡ done xs rest
  pub take_short : (n : ℕ) (buf : List ℕ) → length buf < n → take n buf ≡ incomplete
  pub verify_reads :
      {A : Type 0} (p : Parser A) (f : A → Bool) (buf : List ℕ) → verify p f buf ≡ accept f (p buf)
