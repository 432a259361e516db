-- ===== src/Wire/Words.antt =====
-- A word that `cookie_factory` wrote is read back by `nom`, modulo its width.
use bairelay.Base.{ℕ, ◌%◌, ◌≡◌, ap, ◌∙◌, Bool, true, List, ◌++◌, length, arith}
use bairelay.Wire.Parsed.{Parsed, Parser, ◌>>=◌, done, then_reads}
use bairelay.Wire.Nom.{Nom, accept}
use bairelay.Wire.CookieFactory.{CookieFactory}

module _ (nom : Nom) (cf : CookieFactory) where
  pub le_u8-le_u8 : (n : ℕ) (rest : List ℕ) → nom.le_u8 (cf.le_u8 n ++ rest) ≡ done (n % 256) rest
  le_u8-le_u8 n rest = rw (cf.le_u8_writes n, nom.le_u8_reads)

  pub le_u16-le_u16 :
      (n : ℕ) (rest : List ℕ) → nom.le_u16 (cf.le_u16 n ++ rest) ≡ done (n % 65536) rest
  le_u16-le_u16 n rest =
      rw (cf.le_u16_writes n, nom.le_u16_reads) (ap (λ (k : ℕ). done k rest) (omega arith))

  pub le_u32-le_u32 :
      (n : ℕ) (rest : List ℕ) → nom.le_u32 (cf.le_u32 n ++ rest) ≡ done (n % 4294967296) rest
  le_u32-le_u32 n rest =
      rw (cf.le_u32_writes n, nom.le_u32_reads) (ap (λ (k : ℕ). done k rest) (omega arith))

-- The same as steps of a parser: the rules by which the round trips walk through their fields.
module _ (nom : Nom) (cf : CookieFactory) {B : Type 0} where
  pub u8_then :
      (f : ℕ → Parser B) (n : ℕ) {rest : List ℕ} {r : Parsed B}
      → f (n % 256) rest ≡ r
      → (nom.le_u8 >>= f) (cf.le_u8 n ++ rest) ≡ r
  u8_then f n k = then_reads _ f _ (le_u8-le_u8 nom cf n _) k

  pub u16_then :
      (f : ℕ → Parser B) (n : ℕ) {rest : List ℕ} {r : Parsed B}
      → f (n % 65536) rest ≡ r
      → (nom.le_u16 >>= f) (cf.le_u16 n ++ rest) ≡ r
  u16_then f n k = then_reads _ f _ (le_u16-le_u16 nom cf n _) k

  pub u32_then :
      (f : ℕ → Parser B) (n : ℕ) {rest : List ℕ} {r : Parsed B}
      → f (n % 4294967296) rest ≡ r
      → (nom.le_u32 >>= f) (cf.le_u32 n ++ rest) ≡ r
  u32_then f n k = then_reads _ f _ (le_u32-le_u32 nom cf n _) k

module _ (nom : Nom) {B : Type 0} where
  -- `verify` lets a value pass that its predicate holds of.
  pub verify_then :
      {A : Type 0} (p : Parser A) (g : A → Bool) (buf : List ℕ) (f : A → Parser B) {rest : List ℕ}
      {a : A} {r : Parsed B}
      → p buf ≡ done a rest
      → g a ≡ true
      → f a rest ≡ r
      → (nom.verify p g >>= f) buf ≡ r
  verify_then p g buf f h t k = then_reads _ f _ (nom.verify_reads p g buf ∙ rw (h, accept, t)) k

  pub take_then :
      (n : ℕ) (xs : List ℕ) (rest : List ℕ) (f : List ℕ → Parser B) {r : Parsed B}
      → n ≡ length xs
      → f xs rest ≡ r
      → (nom.take n >>= f) (xs ++ rest) ≡ r
  take_then n xs rest f e k = then_reads _ f _ (rw e (nom.take_reads xs rest)) k
