-- ===== src/Registry/Lookup.antt =====
-- What the lookups of the camera registry find.
use bairelay.Base.{
  ℕ, suc, ◌-◌, ◌≤◌, ◌≡◌, ◌≢◌, ◌⊎◌, refl, ap, ◌∙◌, subst, some_eq, Bool, true, false, ◌&&◌, [], ◌∷◌,
  Option, none, some, length, get_elem?, All, sym, ==_refl, Bool-cases, Option-cases, inl, inr,
  arith,
}
use bairelay.Base.HashMap.{
  String, str_eq, str_eq_eq, get, contains_key, find, starts_with, get-insert_same,
}
use bairelay.Registry.{
  SocketAddr, CameraRegistry, CameraEntry, max_map_entries, is_fresh, filter_option, entry_of,
  upsert, lookup_fresh,
}

starts_with_refl : (s : String) → starts_with s s ≡ true
unfolding starts_with
starts_with_refl [] = refl
starts_with_refl (a ∷ s) = ground (arith, ==_refl a, starts_with_refl s)

-- An upsert that is refused leaves the map as it was, which was full and did not know the UID;
-- after any other, the address of the UID is found until its time to live is over.
lookup_fresh-upsert :
    (m : CameraRegistry) (uid : String) (addr : SocketAddr) (token now later stale_after : ℕ)
    → later - now ≤ stale_after
    → ((upsert m uid addr token now ≡ (m, none))
        × (max_map_entries ≤ length m)
        × (contains_key uid m ≡ false))
      ⊎ (lookup_fresh (upsert m uid addr token now).0 uid later stale_after
          ≡ some (record { addr = addr; token = token; last_seen = now }))
unfolding upsert lookup_fresh
lookup_fresh-upsert m uid addr token now later stale_after h =
    ground (arith, get-insert_same uid (record { addr = addr; token = token; last_seen = now }) m)

-- An entry of the map, at the place where the iteration meets it.
pub record Found (m : CameraRegistry) (p : String → CameraEntry → Bool) (e : CameraEntry)
    : Type 0 where
  pub stored : String
  pub place : ℕ
  pub entry : get_elem? m place ≡ some (stored, e)
  pub holds : p stored e ≡ true

later_Found :
    (m : CameraRegistry) (p : String → CameraEntry → Bool) (e : CameraEntry)
    (x : String × CameraEntry)
    → Found m p e
    → Found (x ∷ m) p e
later_Found m p e x f = record {
  stored = f.stored;
  place = suc f.place;
  entry = f.entry;
  holds = f.holds;
}

find-Found :
    (m : CameraRegistry) (p : String → CameraEntry → Bool) (e : CameraEntry)
    → entry_of (find p m) ≡ some e
    → Found m p e
unfolding find
find-Found [] p e h = cc
find-Found ((j, w) ∷ m) p e h = elim (Bool-cases (p j w)) [
  | inl t ↦
      let same : w ≡ e = some_eq (rw t at h) in
      record {
        stored = j;
        place = 0;
        entry = ap (λ x. some (j, x)) same;
        holds = subst (λ x. p j x ≡ true) same t;
      }
  | inr t ↦ later_Found m p e (j, w) (find-Found m p e (rw t at h))
]

get-Found :
    (m : CameraRegistry) (uid : String) (e : CameraEntry) (q : CameraEntry → Bool)
    → get uid m ≡ some e
    → q e ≡ true
    → Found m (λ stored x. starts_with stored uid && q x) e
unfolding get
get-Found [] uid e q h t = cc
get-Found ((j, w) ∷ m) uid e q h t = elim (Bool-cases (str_eq j uid)) [
  | inl s ↦
      let same : w ≡ e = some_eq (rw s at h) in
      let prefix : starts_with j uid ≡ true =
        subst (λ x. starts_with j x ≡ true) (str_eq_eq j uid s) (starts_with_refl j) in
      record { stored = j; place = 0; entry = ap (λ x. some (j, x)) same; holds = ground arith }
  | inr s ↦ later_Found m _ e (j, w) (get-Found m uid e q (rw s at h) t)
]

filter_option-some :
    {V : Type 0} (q : V → Bool) (o : Option V) (v : V)
    → filter_option q o ≡ some v
    → (o ≡ some v) × (q v ≡ true)
filter_option-some q none v h = cc
filter_option-some q (some w) v h = elim (Bool-cases (q w)) [
  | inl t ↦ let same : w ≡ v = some_eq (rw t at h) in (ap some same, subst (λ x. q x ≡ true) same t)
  | inr t ↦ absurd (none-ne-some (rw t at h))
]
  where
    none-ne-some : none ≢ some v
    none-ne-some e = cc

lookup_fresh-Found :
    (m : CameraRegistry) (uid : String) (now stale_after : ℕ) (e : CameraEntry)
    → lookup_fresh m uid now stale_after ≡ some e
    → Found m (λ stored x. starts_with stored uid && is_fresh now stale_after x.last_seen) e
unfolding lookup_fresh
lookup_fresh-Found m uid now stale_after e h =
    let fresh = λ (x : CameraEntry). is_fresh now stale_after x.last_seen in
    elim (Option-cases (filter_option fresh (get uid m))) [
      | inl missed ↦ find-Found m _ e (rw (missed, lookup_fresh) at h)
      | inr (x, hit) ↦
          let same : x ≡ e = some_eq (rw (hit, lookup_fresh) at h) in
          let (got, is) = filter_option-some fresh (get uid m) x hit in
          get-Found m uid e fresh (got ∙ ap some same) (subst (λ y. fresh y ≡ true) same is)
    ]

find-none :
    (m : CameraRegistry) (p : String → CameraEntry → Bool)
    → entry_of (find p m) ≡ none
    → All (λ entry. p entry.0 entry.1 ≡ false) m
unfolding find
find-none [] p h = tt
find-none ((j, w) ∷ m) p h = elim (Bool-cases (p j w)) [
  | inl e ↦ absurd (some-ne-none (rw e at h))
  | inr e ↦ (e, find-none m p (rw e at h))
]
  where
    some-ne-none : some w ≢ none
    some-ne-none q = cc

lookup_fresh-none :
    (m : CameraRegistry) (uid : String) (now stale_after : ℕ)
    → lookup_fresh m uid now stale_after ≡ none
    → All
        (λ entry. (starts_with entry.0 uid && is_fresh now stale_after entry.1.last_seen) ≡ false)
        m
unfolding lookup_fresh
lookup_fresh-none m uid now stale_after h =
    elim (Option-cases
      (filter_option (λ (x : CameraEntry). is_fresh now stale_after x.last_seen) (get uid m))) [
        | inl missed ↦ find-none m _ (rw (missed, lookup_fresh) at h)
        | inr (x, hit) ↦ absurd (some-ne-none x (rw (hit, lookup_fresh) at h))
      ]
  where
    some-ne-none : (x : CameraEntry) → some x ≢ none
    some-ne-none x q = cc

-- The right answer to a request: a fresh entry with that prefix, or that there is none.
abbrev pub Answers : CameraRegistry → String → ℕ → ℕ → Option CameraEntry → Type 0
Answers m uid now stale_after (some e) =
    Found m (λ stored x. starts_with stored uid && is_fresh now stale_after x.last_seen) e
Answers m uid now stale_after none =
    All (λ entry. (starts_with entry.0 uid && is_fresh now stale_after entry.1.last_seen) ≡ false) m

-- Whatever order the map is iterated in, a lookup answers right: what it finds is a fresh entry
-- of the map whose UID starts with the requested one, and it finds nothing only where no entry
-- is such.
pub lookup_fresh-Answers :
    (m : CameraRegistry) (uid : String) (now stale_after : ℕ)
    → Answers m uid now stale_after (lookup_fresh m uid now stale_after)
lookup_fresh-Answers m uid now stale_after =
    elim (Option-cases (lookup_fresh m uid now stale_after)) [
      | inl e ↦
          subst (Answers m uid now stale_after) (sym e) (lookup_fresh-none m uid now stale_after e)
      | inr (x, e) ↦
          subst (Answers m uid now stale_after) (sym e)
            (lookup_fresh-Found m uid now stale_after x e)
    ]
