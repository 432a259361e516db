-- ===== src/Base/HashMap.antt =====
-- The standard library's `HashMap<String, V>`, as the list of its entries in the order of iteration, which
-- the library leaves open. A string is the list of its bytes.
use bairelay.Base.Tests.{◌==◌, ==_iff, ==_refl, if◌then◌else◌, Bool-cases}
use bairelay.Base.Lists.{length}
use Prim.Native.Nat.{ℕ, ◌+◌, ◌≤◌}
use mathlib.Core.Path.{◌≡◌, refl, ap}
use mathlib.Core.Logic.{◌≢◌, inl, inr}
use mathlib.Core.Bool.{Bool, true, false, ◌&&◌}
use mathlib.Core.Option.{Option, none, some}
use mathlib.Core.List.{List, [], ◌∷◌}
use native.Mathlib.Omega.{arith}

abbrev pub String : Type 0
String = List ℕ

unfoldable pub str_eq : String → String → Bool
str_eq [] [] = true
str_eq [] (b ∷ t) = false
str_eq (a ∷ s) [] = false
str_eq (a ∷ s) (b ∷ t) = (a == b) && str_eq s t

pub str_eq_eq : (a b : String) → str_eq a b ≡ true → a ≡ b
unfolding str_eq
str_eq_eq [] [] h = refl
str_eq_eq [] (b ∷ t) h = cc
str_eq_eq (a ∷ s) [] h = cc
str_eq_eq (a ∷ s) (b ∷ t) h = ground (arith, str_eq_eq s t, ==_iff a b)

pub str_eq_refl : (a : String) → str_eq a a ≡ true
unfolding str_eq
str_eq_refl [] = refl
str_eq_refl (a ∷ s) = ground (arith, ==_refl a, str_eq_refl s)

-- `stored.starts_with(uid)`, as `starts_with stored uid`.
unfoldable pub starts_with : String → String → Bool
starts_with s [] = true
starts_with [] (b ∷ t) = false
starts_with (a ∷ s) (b ∷ t) = (a == b) && starts_with s t

abbrev pub HashMap : Type 0 → Type 0
HashMap V = List (String × V)

module _ {V : Type 0} where
  unfoldable pub get : String → HashMap V → Option V
  get k [] = none
  get k ((j, w) ∷ m) = if str_eq j k then some w else get k m

  unfoldable pub contains_key : String → HashMap V → Bool
  contains_key k [] = false
  contains_key k ((j, w) ∷ m) = if str_eq j k then true else contains_key k m

  unfoldable pub insert : String → V → HashMap V → HashMap V
  insert k v [] = (k, v) ∷ []
  insert k v ((j, w) ∷ m) = if str_eq j k then (j, v) ∷ m else (j, w) ∷ insert k v m

  unfoldable pub remove : String → HashMap V → HashMap V
  remove k [] = []
  remove k ((j, w) ∷ m) = let rest = remove k m in if str_eq j k then rest else (j, w) ∷ rest

  -- `iter().find(p)`
  unfoldable pub find : (String → V → Bool) → HashMap V → Option (String × V)
  find p [] = none
  find p ((j, w) ∷ m) = if p j w then some (j, w) else find p m

  pub contains_key-get :
      (k : String) (m : HashMap V)
      → contains_key k m ≡ (elim (get k m) [ none ↦ false | some v ↦ true ])
  unfolding contains_key get
  contains_key-get k [] = refl
  contains_key-get k ((j, w) ∷ m) = ground (arith, contains_key-get k m)

  pub get-insert_same : (k : String) (v : V) (m : HashMap V) → get k (insert k v m) ≡ some v
  unfolding get insert
  get-insert_same k v [] = ground (arith, str_eq_refl k)
  get-insert_same k v ((j, w) ∷ m) = ground (arith, get-insert_same k v m)

  pub get-insert_other :
      (k i : String) (v : V) (m : HashMap V) → k ≢ i → get i (insert k v m) ≡ get i m
  unfolding get insert
  get-insert_other k i v [] n = ground (arith, str_eq_eq k i)
  get-insert_other k i v ((j, w) ∷ m) n =
      ground (arith, get-insert_other k i v m n, str_eq_eq j k, str_eq_eq j i)

  -- Inserting under a key that is there does not grow the map; otherwise it grows by one.
  pub length-insert :
      (k : String) (v : V) (m : HashMap V)
      → length (insert k v m) ≡ (if contains_key k m then length m else length m + 1)
  unfolding insert contains_key
  length-insert k v [] = refl
  length-insert k v ((j, w) ∷ m) = ground (arith, length-insert k v m)

  pub length-remove : (k : String) (m : HashMap V) → length (remove k m) ≤ length m
  unfolding remove
  length-remove k [] = omega arith
  length-remove k ((j, w) ∷ m) = ground (arith, length-remove k m)

  pub get-remove :
      (k i : String) (m : HashMap V) → get i (remove k m) ≡ (if str_eq k i then none else get i m)
  unfolding get remove
  get-remove k i [] = ground arith
  get-remove k i ((j, w) ∷ m) = ground (
    arith,
    get-remove k i m,
    str_eq_eq j k,
    str_eq_eq k i,
    str_eq_eq j i,
    str_eq_refl k,
    λ (h : str_eq j k ≡ true). ap (λ x. str_eq x i) (str_eq_eq j k h),
  )

module _ {V : Type 0} where
  -- The keys of a map are distinct.
  abbrev pub Distinct : HashMap V → Type 0
  Distinct [] = Unit {0}
  Distinct ((j, w) ∷ m) = (contains_key j m ≡ false) × Distinct m

  pub remove_absent : (k : String) (m : HashMap V) → contains_key k m ≡ false → remove k m ≡ m
  unfolding remove contains_key
  remove_absent k [] h = refl
  remove_absent k ((j, w) ∷ m) h = elim (Bool-cases (str_eq j k)) [
    | inl e ↦ cc
    | inr e ↦ rw e (ap (◌∷◌ (j, w)) (remove_absent k m (rw e at h)))
  ]
