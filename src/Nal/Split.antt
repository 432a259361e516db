-- ===== src/Nal/Split.antt =====
-- Splitting what was joined with start codes.
use bairelay.Base.{
  ℕ, ◌≡◌, ◌≢◌, refl, ap, ◌∙◌, Bool, true, false, List, [], ◌∷◌, ◌++◌, append_assoc, map, Option,
  none, some, All, arith,
}
use bairelay.Base.HashMap.{starts_with}
use bairelay.Nal.{close, extend, split_loop, split_annex_b}

abbrev pub code3 : List ℕ
code3 = 0 ∷ 0 ∷ 1 ∷ []

abbrev pub code4 : List ℕ
code4 = 0 ∷ 0 ∷ 0 ∷ 1 ∷ []

-- A unit with no start code inside and a last byte other than zero, as the codecs escape their units.
abbrev pub Clean : List ℕ → Type 0
Clean [] = ⊥
Clean (x ∷ []) = x ≢ 0
Clean (x ∷ y ∷ nal) = (starts_with (x ∷ y ∷ nal) code3 ≡ false) × Clean (y ∷ nal)

-- Units, each behind a start code of four bytes or of three.
abbrev pub annex_b : List (Bool × List ℕ) → List ℕ
annex_b [] = []
annex_b ((true, nal) ∷ units) = code4 ++ (nal ++ annex_b units)
annex_b ((false, nal) ∷ units) = code3 ++ (nal ++ annex_b units)

no_code3 :
    (x : ℕ) (nal rest : List ℕ) → Clean (x ∷ nal) → starts_with ((x ∷ nal) ++ rest) code3 ≡ false
unfolding starts_with
no_code3 x [] rest c = ground (arith, c)
no_code3 x (y ∷ []) rest (c, d) = ground (arith, d)
no_code3 x (y ∷ z ∷ nal) rest (c, d) = c

no_code4 :
    (x : ℕ) (nal rest : List ℕ) → Clean (x ∷ nal) → starts_with ((x ∷ nal) ++ rest) code4 ≡ false
unfolding starts_with
no_code4 x [] rest c = ground (arith, c)
no_code4 x (y ∷ []) rest (c, d) = ground (arith, d)
no_code4 x (y ∷ z ∷ []) rest (c, (d, e)) = ground (arith, e)
no_code4 x (y ∷ z ∷ w ∷ nal) rest (c, (d, e)) = ground (arith, d)

-- The loop walks through a unit.
split_loop-unit :
    (x : ℕ) (nal rest before : List ℕ)
    → Clean (x ∷ nal)
    → split_loop ((x ∷ nal) ++ rest) 0 (some before)
      ≡ split_loop rest 0 (some (before ++ (x ∷ nal)))
unfolding split_loop extend
split_loop-unit x [] rest before c =
    rw (no_code4 x [] rest c, split_loop) (rw (no_code3 x [] rest c, split_loop) refl)
split_loop-unit x (y ∷ nal) rest before (c, d) =
    rw (no_code4 x (y ∷ nal) rest (c, d), split_loop)
      (rw (no_code3 x (y ∷ nal) rest (c, d), split_loop)
        (split_loop-unit y nal rest (before ++ (x ∷ [])) d
          ∙ ap (λ u. split_loop rest 0 (some u)) (append_assoc before (x ∷ []) (y ∷ nal))))

split_loop-annex_b :
    (units : List (Bool × List ℕ)) (nal : Option (List ℕ))
    → All (λ u. Clean u.1) units
    → split_loop (annex_b units) 0 nal ≡ close nal (map (λ u. u.1) units)
unfolding split_loop close starts_with
split_loop-annex_b [] nal h = refl
split_loop-annex_b ((true, []) ∷ units) nal (c, h) = absurd c
split_loop-annex_b ((false, []) ∷ units) nal (c, h) = absurd c
split_loop-annex_b ((true, x ∷ u) ∷ units) nal (c, h) =
    ap (close nal)
      (split_loop-unit x u (annex_b units) [] c ∙ split_loop-annex_b units (some (x ∷ u)) h)
split_loop-annex_b ((false, x ∷ u) ∷ units) nal (c, h) =
    ap (close nal)
      (split_loop-unit x u (annex_b units) [] c ∙ split_loop-annex_b units (some (x ∷ u)) h)

-- Units joined with start codes of three or four bytes are split into the same units, where no
-- unit is empty, has a start code inside or ends in a zero byte.
pub split_annex_b-annex_b :
    (units : List (Bool × List ℕ))
    → All (λ u. Clean u.1) units
    → split_annex_b (annex_b units) ≡ map (λ u. u.1) units
unfolding split_annex_b close
split_annex_b-annex_b units h = split_loop-annex_b units none h
