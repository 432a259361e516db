-- ===== src/Base/BTreeMap.antt =====
-- The standard library's `BTreeMap<u32, V>`, as the list of its entries in ascending order of the keys.
use Prim.Native.Nat.{ℕ, suc, ◌≤◌, ◌<◌, max}
use mathlib.Core.Path.{◌≡◌, refl, ap, ◌∙◌}
use mathlib.Core.Logic.{inl, inr}
use mathlib.Core.Bool.{Bool, true, false, not}
use mathlib.Core.Option.{Option, none, some}
use mathlib.Core.List.{List, [], ◌∷◌}
use native.Mathlib.Omega.{arith}
use bairelay.Base.Tests.{◌==◌, ltb, if◌then◌else◌, ==_iff, Bool-cases, some_eq}
use bairelay.Base.Lists.{length}

abbrev pub BTreeMap : Type 0 → Type 0
BTreeMap V = List (ℕ × V)

module _ {V : Type 0} where
  unfoldable pub get : ℕ → BTreeMap V → Option V
  get k [] = none
  get k ((j, w) ∷ m) = if j == k then some w else get k m

  unfoldable pub contains_key : ℕ → BTreeMap V → Bool
  contains_key k [] = false
  contains_key k ((j, w) ∷ m) = if j == k then true else contains_key k m

  unfoldable pub insert : ℕ → V → BTreeMap V → BTreeMap V
  insert k v [] = (k, v) ∷ []
  insert k v ((j, w) ∷ m) =
      if j == k then (k, v) ∷ m else if ltb k j then (k, v) ∷ (j, w) ∷ m else (j, w) ∷ insert k v m

  -- Keeps the entries whose key passes the test.
  unfoldable pub retain : (ℕ → Bool) → BTreeMap V → BTreeMap V
  retain p [] = []
  retain p ((j, w) ∷ m) = let rest = retain p m in if p j then (j, w) ∷ rest else rest

  -- The keys are distinct, so this drops one entry at most.
  unfoldable pub remove : ℕ → BTreeMap V → BTreeMap V
  unfolding retain
  remove k m = retain (λ j. not (j == k)) m

  unfoldable pub max_key : BTreeMap V → Option ℕ
  max_key [] = none
  max_key ((j, w) ∷ m) = elim (max_key m) [ none ↦ some j | some k ↦ some (max j k) ]

  pub get-insert :
      (k j : ℕ) (v : V) (m : BTreeMap V)
      → get j (insert k v m) ≡ (if k == j then some v else get j m)
  unfolding get insert
  get-insert k j v [] = refl
  get-insert k j v ((i, w) ∷ m) = ground (arith, get-insert k j v m)

  pub get-retain :
      (p : ℕ → Bool) (j : ℕ) (m : BTreeMap V) → get j (retain p m) ≡ (if p j then get j m else none)
  unfolding get retain
  get-retain p j [] = ground arith
  get-retain p j ((i, w) ∷ m) = ground (arith, get-retain p j m, ==_iff i j)

  pub get-remove :
      (k j : ℕ) (m : BTreeMap V) → get j (remove k m) ≡ (if j == k then none else get j m)
  unfolding remove
  get-remove k j m = ground (arith, get-retain (λ i. not (i == k)) j m)

  pub length-retain-le : (p : ℕ → Bool) (m : BTreeMap V) → length (retain p m) ≤ length m
  unfolding retain
  length-retain-le p [] = omega arith
  length-retain-le p ((i, w) ∷ m) = ground (arith, length-retain-le p m)

  pub length-remove-lt :
      (k : ℕ) (m : BTreeMap V) (v : V) → get k m ≡ some v → length (remove k m) < length m
  unfolding get remove
  length-remove-lt k [] v e = cc
  length-remove-lt k ((i, w) ∷ m) v e =
      ground (arith, length-remove-lt k m v, length-retain-le (λ j. not (j == k)) m)

  pub length-insert-le : (k : ℕ) (v : V) (m : BTreeMap V) → length (insert k v m) ≤ suc (length m)
  unfolding insert
  length-insert-le k v [] = omega arith
  length-insert-le k v ((i, w) ∷ m) = ground (arith, length-insert-le k v m)

  pub contains_key-get :
      (k : ℕ) (m : BTreeMap V) → contains_key k m ≡ elim (get k m) [ none ↦ false | some v ↦ true ]
  unfolding get contains_key
  contains_key-get k [] = refl
  contains_key-get k ((j, w) ∷ m) = ground (arith, contains_key-get k m)

  pub length-insert_new :
      (k : ℕ) (v : V) (m : BTreeMap V) → get k m ≡ none → length (insert k v m) ≡ suc (length m)
  unfolding get insert
  length-insert_new k v [] e = refl
  length-insert_new k v ((i, w) ∷ m) e = ground (arith, length-insert_new k v m)

-- `retain` and `iter_mut` by values.
module _ {V : Type 0} where
  unfoldable pub retain_values : (V → Bool) → BTreeMap V → BTreeMap V
  retain_values p [] = []
  retain_values p ((j, w) ∷ m) = let rest = retain_values p m in if p w then (j, w) ∷ rest else rest

  unfoldable pub map_values : (V → V) → BTreeMap V → BTreeMap V
  map_values f [] = []
  map_values f ((j, w) ∷ m) = (j, f w) ∷ map_values f m

  unfoldable pub values : BTreeMap V → List V
  values [] = []
  values ((j, w) ∷ m) = w ∷ values m

  pub get-retain_values :
      (p : V → Bool) (k : ℕ) (v : V) (m : BTreeMap V)
      → get k m ≡ some v
      → p v ≡ true
      → get k (retain_values p m) ≡ some v
  unfolding get retain_values
  get-retain_values p k v [] e h = e
  get-retain_values p k v ((j, w) ∷ m) e h = elim (Bool-cases (j == k)) [
    | inl same ↦
        let is : w ≡ v = some_eq (rw same at e) in
        let kept : p w ≡ true = ap p is ∙ h in rw kept (rw same (ap some is))
    | inr other ↦
        let ih = get-retain_values p k v m (rw other at e) h in
        elim (Bool-cases (p w)) [ inl kept ↦ rw kept (rw other ih) | inr dropped ↦ rw dropped ih ]
  ]

  pub get-map_values :
      (f : V → V) (k : ℕ) (v : V) (m : BTreeMap V)
      → get k m ≡ some v
      → get k (map_values f m) ≡ some (f v)
  unfolding get map_values
  get-map_values f k v [] e = cc
  get-map_values f k v ((j, w) ∷ m) e = elim (Bool-cases (j == k)) [
    | inl same ↦ rw same (ap (λ x. some (f x)) (some_eq (rw same at e)))
    | inr other ↦ rw other (get-map_values f k v m (rw other at e))
  ]

pub get-retain_values-none :
    {V : Type 0} (p : V → Bool) (k : ℕ) (m : BTreeMap V)
    → get k m ≡ none
    → get k (retain_values p m) ≡ none
unfolding get retain_values
get-retain_values-none p k [] e = e
get-retain_values-none p k ((j, w) ∷ m) e = ground (arith, get-retain_values-none p k m)
