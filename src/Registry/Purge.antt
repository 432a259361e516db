-- ===== src/Registry/Purge.antt =====
-- Purges of the maps of wake_server/registry.rs, and lookups after them.
use mathlib.Core.Path.{ap₂}
use bairelay.Base.{
  ℕ, ◌≤◌, ◌≡◌, ◌≢◌, refl, sym, ap, ◌∙◌, subst, Bool, true, false, ◌&&◌, List, [], ◌∷◌, none, some,
  if◌then◌else◌, Bool-cases, inl, inr, arith,
}
use bairelay.Base.HashMap.{
  HashMap, String, str_eq, str_eq_eq, str_eq_refl, get, contains_key, remove, find, starts_with,
  Distinct, remove_absent,
}
use bairelay.Registry.{
  CameraRegistry, SessionAnchors, SessionAnchor, CameraEntry, is_stale, is_fresh, stale_uids,
  remove_all, purge_cameras, purge_anchors, lookup, filter_option, entry_of, lookup_fresh,
}

abbrev pub member : String → List String → Bool
member i [] = false
member i (j ∷ uids) = if str_eq j i then true else member i uids

module _ {V : Type 0} (stale : V → Bool) where
  -- The entries that are not stale.
  unfoldable keep : HashMap V → HashMap V
  keep [] = []
  keep ((j, w) ∷ m) = let rest = keep m in if stale w then rest else (j, w) ∷ rest

  stale_uids_absent :
      (i : String) (m : HashMap V)
      → contains_key i m ≡ false
      → member i (stale_uids stale m) ≡ false
  unfolding stale_uids contains_key
  stale_uids_absent i [] h = refl
  stale_uids_absent i ((j, w) ∷ m) h = ground (arith, stale_uids_absent i m)

  remove_all_cons :
      (uids : List String) (j : String) (w : V) (m : HashMap V)
      → member j uids ≡ false
      → remove_all uids ((j, w) ∷ m) ≡ (j, w) ∷ remove_all uids m
  unfolding remove_all remove
  remove_all_cons [] j w m h = refl
  remove_all_cons (u ∷ uids) j w m h = elim (Bool-cases (str_eq u j)) [
    | inl e ↦ absurd (true-ne-false (rw e at h))
    | inr e ↦ elim (Bool-cases (str_eq j u)) [
      | inl f ↦
          absurd (true-ne-false (sym (str_eq_refl j) ∙ ap (λ x. str_eq x j) (str_eq_eq j u f) ∙ e))
      | inr f ↦ rw (f, remove_all) (remove_all_cons uids j w (remove u m) (rw e at h))
    ]
  ]
    where
      true-ne-false : true ≢ false
      true-ne-false e = cc

  remove_all-stale_uids : (m : HashMap V) → Distinct m → remove_all (stale_uids stale m) m ≡ keep m
  unfolding stale_uids remove_all keep remove
  remove_all-stale_uids [] d = refl
  remove_all-stale_uids ((j, w) ∷ m) (fresh, d) = elim (Bool-cases (stale w)) [
    | inl e ↦
        let one : remove j ((j, w) ∷ m) ≡ m = rw (str_eq_refl j) (remove_absent j m fresh) in
        rw e (ap (remove_all (stale_uids stale m)) one ∙ remove_all-stale_uids m d)
    | inr e ↦ rw e (
        remove_all_cons (stale_uids stale m) j w m (stale_uids_absent j m fresh)
        ∙ ap (◌∷◌ (j, w)) (remove_all-stale_uids m d))
  ]

  -- A search that no stale entry satisfies finds the same.
  find-keep :
      (p : String → V → Bool) (m : HashMap V)
      → ((j : String) (w : V) → p j w ≡ true → stale w ≡ false)
      → find p (keep m) ≡ find p m
  unfolding find keep
  find-keep p [] h = refl
  find-keep p ((j, w) ∷ m) h = ground (arith, find-keep p m h, h j w)

  keep_absent : (i : String) (m : HashMap V) → contains_key i m ≡ false → get i (keep m) ≡ none
  unfolding keep contains_key get
  keep_absent i [] h = refl
  keep_absent i ((j, w) ∷ m) h = ground (arith, keep_absent i m)

  get-keep :
      (fresh : V → Bool) (i : String) (m : HashMap V)
      → ((w : V) → fresh w ≡ true → stale w ≡ false)
      → Distinct m
      → filter_option fresh (get i (keep m)) ≡ filter_option fresh (get i m)
  unfolding get keep
  get-keep fresh i [] h d = refl
  get-keep fresh i ((j, w) ∷ m) h (absent, d) = elim (Bool-cases (str_eq j i)) [
    | inl e ↦
        let gone : get i (keep m) ≡ none =
          subst (λ x. get x (keep m) ≡ none) (str_eq_eq j i e) (keep_absent j m absent) in
        ground (arith, h w)
    | inr e ↦ ground (arith, get-keep fresh i m h d, h w)
  ]

fresh-ne-stale :
    (now later stale_after t : ℕ)
    → now ≤ later
    → is_fresh later stale_after t ≡ true
    → is_stale now stale_after t ≡ false
fresh-ne-stale now later stale_after t h e = ground arith

lookup-purge_anchors :
    (m : SessionAnchors) (uid : String) (now later stale_after : ℕ)
    → Distinct m
    → now ≤ later
    → lookup (purge_anchors m now stale_after).0 uid later stale_after
      ≡ lookup m uid later stale_after
unfolding lookup purge_anchors
lookup-purge_anchors m uid now later stale_after d h =
    let stale = λ (a : SessionAnchor). is_stale now stale_after a.issued_at in
    ap
      (λ n.
        filter_option (λ (a : SessionAnchor). is_fresh later stale_after a.issued_at) (get uid n))
      (remove_all-stale_uids stale m d)
    ∙ get-keep stale _ uid m (λ a e. fresh-ne-stale now later stale_after a.issued_at h e) d

lookup_fresh-purge_cameras :
    (m : CameraRegistry) (uid : String) (now later stale_after : ℕ)
    → Distinct m
    → now ≤ later
    → lookup_fresh (purge_cameras m now stale_after).0 uid later stale_after
      ≡ lookup_fresh m uid later stale_after
unfolding lookup_fresh purge_cameras
lookup_fresh-purge_cameras m uid now later stale_after d h =
    let stale = λ (e : CameraEntry). is_stale now stale_after e.last_seen in
    let fresh = λ (e : CameraEntry). is_fresh later stale_after e.last_seen in
    let wanted = λ (stored : String) (e : CameraEntry). starts_with stored uid && fresh e in
    let exact =
      get-keep stale fresh uid m (λ e f. fresh-ne-stale now later stale_after e.last_seen h f) d in
    let search = find-keep stale wanted m (λ j e f.
      fresh-ne-stale now later stale_after e.last_seen h
        (and_right (starts_with j uid) (fresh e) f)) in
    let kept = remove_all-stale_uids stale m d in
    ap
      (λ n. elim (filter_option fresh (get uid n)) [
        | some e ↦ some e
        | none ↦ entry_of (find wanted n)
      ])
      kept
    ∙ ap₂ (λ a b. elim a [ some e ↦ some e | none ↦ entry_of b ]) exact search
  where
    and_right : (a b : Bool) → (a && b) ≡ true → b ≡ true
    and_right a b h = ground arith

-- A purge of either map, whose UIDs are distinct, is invisible: whoever looks up a session, or a
-- camera by its UID or by a prefix of it, then or later with the same time to live, gets what he
-- would have got without the purge.
pub lookups-purge :
    (sessions : SessionAnchors) (cameras : CameraRegistry) (uid : String)
    (now later stale_after : ℕ)
    → Distinct sessions
    → Distinct cameras
    → now ≤ later
    → (lookup (purge_anchors sessions now stale_after).0 uid later stale_after
        ≡ lookup sessions uid later stale_after)
      × (lookup_fresh (purge_cameras cameras now stale_after).0 uid later stale_after
          ≡ lookup_fresh cameras uid later stale_after)
lookups-purge sessions cameras uid now later stale_after d e h = (
  lookup-purge_anchors sessions uid now later stale_after d h,
  lookup_fresh-purge_cameras cameras uid now later stale_after e h,
)
