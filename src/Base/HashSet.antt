-- ===== src/Base/HashSet.antt =====
-- The standard library's `HashSet` of numbers, as the list of its elements.
use Prim.Native.Nat.{ℕ}
use mathlib.Core.Path.{◌≡◌, sym, ap, ◌∙◌, refl}
use mathlib.Core.Logic.{inl, inr}
use mathlib.Core.Bool.{Bool, true, false}
use mathlib.Core.List.{List, [], ◌∷◌}
use native.Mathlib.Omega.{arith}
use bairelay.Base.Tests.{◌==◌, if◌then◌else◌, Bool-cases}

unfoldable pub contains : ℕ → List ℕ → Bool
contains n [] = false
contains n (m ∷ set) = if m == n then true else contains n set

unfoldable pub insert : ℕ → List ℕ → List ℕ
unfolding contains
insert n set = if contains n set then set else n ∷ set

-- Drops every occurrence, and so the one that there is at most.
unfoldable pub remove : ℕ → List ℕ → List ℕ
remove n [] = []
remove n (m ∷ set) = let rest = remove n set in if m == n then rest else m ∷ rest

pub contains-insert :
    (n m : ℕ) (set : List ℕ) → contains n (insert m set) ≡ (if m == n then true else contains n set)
unfolding insert contains
contains-insert n m set = elim (Bool-cases (contains m set)) [
  | inl e ↦ rw e (elim (Bool-cases (m == n)) [
    | inl h ↦ let same : m ≡ n = ground (arith, h) in rw h (ap (λ k. contains k set) (sym same) ∙ e)
    | inr h ↦ rw h refl
  ])
  | inr e ↦ rw e refl
]

pub contains-remove :
    (n m : ℕ) (set : List ℕ)
    → contains n (remove m set) ≡ (if m == n then false else contains n set)
unfolding contains remove
contains-remove n m [] = ground arith
contains-remove n m (k ∷ set) = ground (arith, contains-remove n m set)

pub insert_new : (n : ℕ) (set : List ℕ) → contains n set ≡ false → n ∷ set ≡ insert n set
unfolding insert
insert_new n set h = rw h refl
