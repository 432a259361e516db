-- ===== src/Wire/Within.antt =====
-- How much input a streaming parser can ask for before it decides.
use bairelay.Base.{
  ℕ, ◌+◌, ◌≤◌, ◌<◌, ◌≡◌, Bool, true, List, [], ◌∷◌, length, take, drop, length-take, length-drop,
  take-append-drop, leb, Bool-cases, inl, inr, arith,
}
use bairelay.Wire.Parsed.{Parsed, Parser, done, incomplete, error, failure, ok, ◌>>=◌}
use bairelay.Wire.Nom.{Nom, accept}

-- The result asks for more only if the input is shorter than n; otherwise it takes n bytes at most, and
-- its value satisfies P.
abbrev pub Within : {A : Type 0} → ℕ → (A → Type 0) → List ℕ → Parsed A → Type 0
Within n P buf (done a rest) = P a × (length buf ≤ n + length rest)
Within n P buf incomplete = length buf < n
Within n P buf error = Unit {0}
Within n P buf failure = Unit {0}

abbrev pub Any : {A : Type 0} → A → Type 0
Any a = Unit {0}

-- Two steps need at most what each of them needs.
pub Within-then :
    {A B : Type 0} (n k : ℕ) (P : A → Type 0) (Q : B → Type 0) (p : Parser A) (f : A → Parser B)
    (buf : List ℕ)
    → Within n P buf (p buf)
    → ((a : A) (rest : List ℕ) → P a → Within k Q rest (f a rest))
    → Within (n + k) Q buf ((p >>= f) buf)
unfolding ◌>>=◌
Within-then {A = A} {B = B} n k P Q p f buf h g = Within-then_cases (p buf) h
  where
    Within-later :
        (rest : List ℕ) (r : Parsed B)
        → length buf ≤ n + length rest
        → Within k Q rest r
        → Within (n + k) Q buf r
    Within-later rest (done b more) e (q, l) = (q, omega (arith, e, l))
    Within-later rest incomplete e l = omega (arith, e, l)
    Within-later rest error e l = tt
    Within-later rest failure e l = tt

    Within-then_cases :
        (r : Parsed A)
        → Within n P buf r
        → Within (n + k) Q buf (elim r [
          | done a rest ↦ f a rest
          | incomplete ↦ incomplete
          | error ↦ error
          | failure ↦ failure
        ])
    Within-then_cases (done a rest) (q, l) = Within-later rest (f a rest) l (g a rest q)
    Within-then_cases incomplete l = omega (arith, l)
    Within-then_cases error l = tt
    Within-then_cases failure l = tt

pub Within-weaken :
    {A : Type 0} (n k : ℕ) (P : A → Type 0) (buf : List ℕ) (r : Parsed A)
    → n ≤ k
    → Within n P buf r
    → Within k P buf r
Within-weaken n k P buf (done a rest) h (q, l) = (q, omega (arith, l))
Within-weaken n k P buf incomplete h l = omega (arith, l)
Within-weaken n k P buf error h l = tt
Within-weaken n k P buf failure h l = tt

module _ (nom : Nom) where
  pub le_u32-Within : (buf : List ℕ) → Within 4 Any buf (nom.le_u32 buf)
  le_u32-Within (a ∷ b ∷ c ∷ d ∷ rest) = rw (nom.le_u32_reads a b c d rest) (tt, omega arith)
  le_u32-Within [] = rw (nom.le_u32_short [] (omega arith)) (omega arith)
  le_u32-Within (a ∷ []) = rw (nom.le_u32_short (a ∷ []) (omega arith)) (omega arith)
  le_u32-Within (a ∷ b ∷ []) = rw (nom.le_u32_short (a ∷ b ∷ []) (omega arith)) (omega arith)
  le_u32-Within (a ∷ b ∷ c ∷ []) =
      rw (nom.le_u32_short (a ∷ b ∷ c ∷ []) (omega arith)) (omega arith)

  pub verify-Within :
      {A : Type 0} (n : ℕ) (p : Parser A) (t : A → Bool) (buf : List ℕ)
      → Within n Any buf (p buf)
      → Within n (λ a. t a ≡ true) buf (nom.verify p t buf)
  verify-Within {A} n p t buf h = rw (nom.verify_reads p t buf) (accept-Within (p buf) h)
    where
      accept-Within :
          (r : Parsed A) → Within n Any buf r → Within n (λ a. t a ≡ true) buf (accept t r)
      accept-Within (done a rest) (u, l) = elim (Bool-cases (t a)) [
        | inl e ↦ rw e (e, l)
        | inr e ↦ rw e tt
      ]
      accept-Within incomplete l = l
      accept-Within error l = tt
      accept-Within failure l = tt

  pub take-Within : (n : ℕ) (buf : List ℕ) → Within n Any buf (nom.take n buf)
  take-Within n buf = elim (Bool-cases (leb n (length buf))) [
    | inl long ↦
        let reads = nom.take_reads (take n buf) (drop n buf) in
        let e : length (take n buf) ≡ n = ground (arith, length-take n buf) in
        let eq : nom.take n buf ≡ done (take n buf) (drop n buf) =
          rw (take-append-drop n buf, e) at reads in
        rw eq (tt, omega (arith, length-drop n buf))
    | inr short ↦ rw (nom.take_short n buf (ground arith)) (ground arith)
  ]

  pub le_u16-Within : (buf : List ℕ) → Within 2 Any buf (nom.le_u16 buf)
  le_u16-Within (a ∷ b ∷ rest) = rw (nom.le_u16_reads a b rest) (tt, omega arith)
  le_u16-Within [] = rw (nom.le_u16_short [] (omega arith)) (omega arith)
  le_u16-Within (a ∷ []) = rw (nom.le_u16_short (a ∷ []) (omega arith)) (omega arith)

  pub le_u8-Within : (buf : List ℕ) → Within 1 Any buf (nom.le_u8 buf)
  le_u8-Within (a ∷ rest) = rw (nom.le_u8_reads a rest) (tt, omega arith)
  le_u8-Within [] = rw nom.le_u8_short (omega arith)

pub ok-Within : {A : Type 0} (a : A) (buf : List ℕ) → Within 0 Any buf (ok a buf)
ok-Within a buf = (tt, omega arith)

-- The steps of a header: any step whose value matters not, a word, and a word that passes a test.
pub step_then :
    {A B : Type 0} (n k : ℕ) (Q : B → Type 0) (p : Parser A) (f : A → Parser B) (buf : List ℕ)
    → Within n Any buf (p buf)
    → ((a : A) (rest : List ℕ) → Within k Q rest (f a rest))
    → Within (n + k) Q buf ((p >>= f) buf)
step_then n k Q p f buf h g = Within-then n k Any Q p f buf h (λ a rest u. g a rest)

module _ (nom : Nom) where
  pub word_then :
      {B : Type 0} (k : ℕ) (f : ℕ → Parser B) (buf : List ℕ)
      → ((a : ℕ) (rest : List ℕ) → Within k Any rest (f a rest))
      → Within (4 + k) Any buf ((nom.le_u32 >>= f) buf)
  word_then k f buf g = step_then 4 k Any nom.le_u32 f buf (le_u32-Within nom buf) g

  pub tested_then :
      {B : Type 0} (k : ℕ) (t : ℕ → Bool) (f : ℕ → Parser B) (buf : List ℕ)
      → ((a : ℕ) (rest : List ℕ) → t a ≡ true → Within k Any rest (f a rest))
      → Within (4 + k) Any buf ((nom.verify nom.le_u32 t >>= f) buf)
  tested_then k t f buf g =
      Within-then 4 k (λ a. t a ≡ true) Any (nom.verify nom.le_u32 t) f buf
        (verify-Within nom 4 nom.le_u32 t buf (le_u32-Within nom buf)) g
