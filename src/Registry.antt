-- ===== src/Registry.antt =====
-- The in-memory maps of the wake server in src/wake_server/registry.rs, each call under its mutex. Instants and
-- durations are nanoseconds; an IP address is its number.
pub mod Bound
pub mod Purge
pub mod Lookup
mod Examples
use bairelay.Base.{
  ℕ, ◌-◌, Bool, true, false, not, ◌&&◌, List, [], ◌∷◌, Option, none, some, length, ltb, leb, ◌==◌,
  if◌then◌else◌,
}
use bairelay.Base.HashMap.{HashMap, String, get, contains_key, insert, remove, find, starts_with}

abbrev pub max_map_entries : ℕ
max_map_entries = 1024

pub record SessionAnchor : Type 0 where
  pub token : ℕ
  pub ac : ℕ
  pub issued_at : ℕ

pub record SocketAddr : Type 0 where
  pub ip : ℕ
  pub port : ℕ

pub record CameraEntry : Type 0 where
  pub addr : SocketAddr
  pub token : ℕ
  pub last_seen : ℕ

abbrev pub SessionAnchors : Type 0
SessionAnchors = HashMap SessionAnchor

abbrev pub CameraRegistry : Type 0
CameraRegistry = HashMap CameraEntry

-- The two forms in which the source compares an entry's age.
abbrev pub is_stale : ℕ → ℕ → ℕ → Bool
is_stale now stale_after t = ltb stale_after (now - t)

abbrev pub is_fresh : ℕ → ℕ → ℕ → Bool
is_fresh now stale_after t = leb (now - t) stale_after

-- `filter(…).map(|(uid, _)| uid.clone())`, then `for uid in &stale { map.remove(uid) }`.
unfoldable pub stale_uids : {V : Type 0} → (V → Bool) → HashMap V → List String
stale_uids stale [] = []
stale_uids stale ((uid, v) ∷ m) =
    let rest = stale_uids stale m in if stale v then uid ∷ rest else rest

unfoldable pub remove_all : {V : Type 0} → List String → HashMap V → HashMap V
remove_all [] m = m
remove_all (uid ∷ uids) m = remove_all uids (remove uid m)

unfoldable pub issue : SessionAnchors → String → ℕ → ℕ → ℕ → SessionAnchors × Bool
issue m uid token ac now =
    if leb max_map_entries (length m) && not (contains_key uid m)
    then (m, false)
    else (insert uid (record { token = token; ac = ac; issued_at = now }) m, true)

unfoldable pub purge_anchors : SessionAnchors → ℕ → ℕ → SessionAnchors × List String
purge_anchors m now stale_after =
    let stale = stale_uids (λ (a : SessionAnchor). is_stale now stale_after a.issued_at) m in
    (remove_all stale m, stale)

-- `Option::filter`
abbrev pub filter_option : {V : Type 0} → (V → Bool) → Option V → Option V
filter_option p none = none
filter_option p (some v) = if p v then some v else none

unfoldable pub lookup : SessionAnchors → String → ℕ → ℕ → Option SessionAnchor
lookup m uid now stale_after =
    filter_option (λ (a : SessionAnchor). is_fresh now stale_after a.issued_at) (get uid m)

unfoldable pub upsert : CameraRegistry → String → SocketAddr → ℕ → ℕ → CameraRegistry × Option Bool
upsert m uid addr token now =
    if leb max_map_entries (length m) && not (contains_key uid m) then (m, none) else (
      insert uid (record { addr = addr; token = token; last_seen = now }) m,
      some (not (contains_key uid m)),
    )

unfoldable pub purge_cameras : CameraRegistry → ℕ → ℕ → CameraRegistry × List String
purge_cameras m now stale_after =
    let stale = stale_uids (λ (e : CameraEntry). is_stale now stale_after e.last_seen) m in
    (remove_all stale m, stale)

abbrev pub entry_of : Option (String × CameraEntry) → Option CameraEntry
entry_of none = none
entry_of (some (uid, e)) = some e

-- The exact match, and else any stored UID that starts with the requested one.
unfoldable pub lookup_fresh : CameraRegistry → String → ℕ → ℕ → Option CameraEntry
lookup_fresh m uid now stale_after =
    elim (filter_option (λ (e : CameraEntry). is_fresh now stale_after e.last_seen) (get uid m)) [
      | some e ↦ some e
      | none ↦
          entry_of
            (find (λ stored e. starts_with stored uid && is_fresh now stale_after e.last_seen) m)
    ]

unfoldable pub lookup_by_ip : CameraRegistry → ℕ → ℕ → ℕ → Option (String × CameraEntry)
lookup_by_ip m ip now stale_after =
    find (λ uid e. (e.addr.ip == ip) && is_fresh now stale_after e.last_seen) m
