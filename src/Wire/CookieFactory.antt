-- ===== src/Wire/CookieFactory.antt =====
-- The writers of `cookie_factory::bytes`. A writer is the list of bytes that it appends; `tuple` and
-- `gen` put such lists one after the other, and `slice` and `string` write their bytes as they are.
use bairelay.Base.{ℕ, ◌/◌, ◌%◌, ◌≡◌, List, [], ◌∷◌}

pub record CookieFactory : Type 0 where
  pub le_u8 : ℕ → List ℕ
  pub le_u16 : ℕ → List ℕ
  pub le_u32 : ℕ → List ℕ
  pub le_u8_writes : (n : ℕ) → le_u8 n ≡ n % 256 ∷ []
  pub le_u16_writes : (n : ℕ) → le_u16 n ≡ n % 256 ∷ n / 256 % 256 ∷ []
  pub le_u32_writes :
      (n : ℕ) → le_u32 n ≡ n % 256 ∷ n / 256 % 256 ∷ n / 65536 % 256 ∷ n / 16777216 % 256 ∷ []
