-- ===== src/Registry/Bound.antt =====
-- The sizes of the maps of wake_server/registry.rs under any calls.
use bairelay.Base.{ℕ, ◌≤◌, List, [], ◌∷◌, length, arith}
use bairelay.Base.HashMap.{HashMap, String, remove, length-insert, length-remove}
use bairelay.Registry.{
  SocketAddr, CameraRegistry, SessionAnchors, SessionAnchor, CameraEntry, max_map_entries, is_stale,
  stale_uids, remove_all, upsert, purge_cameras, issue, purge_anchors,
}

-- A call of one of the two maps.
pub data Call : Type 0 where
  call_issue : String → ℕ → ℕ → ℕ → Call
  call_purge_anchors : ℕ → ℕ → Call
  call_upsert : String → SocketAddr → ℕ → ℕ → Call
  call_purge_cameras : ℕ → ℕ → Call

abbrev pub Maps : Type 0
Maps = SessionAnchors × CameraRegistry

unfoldable pub perform : Maps → Call → Maps
perform (anchors, cameras) (call_issue uid token ac now) =
    ((issue anchors uid token ac now).0, cameras)
perform (anchors, cameras) (call_purge_anchors now stale_after) =
    ((purge_anchors anchors now stale_after).0, cameras)
perform (anchors, cameras) (call_upsert uid addr token now) =
    (anchors, (upsert cameras uid addr token now).0)
perform (anchors, cameras) (call_purge_cameras now stale_after) =
    (anchors, (purge_cameras cameras now stale_after).0)

unfoldable pub perform_all : Maps → List Call → Maps
unfolding perform
perform_all maps [] = maps
perform_all maps (c ∷ cs) = perform_all (perform maps c) cs

length-remove_all :
    {V : Type 0} (uids : List String) (m : HashMap V) → length (remove_all uids m) ≤ length m
unfolding remove_all
length-remove_all [] m = omega arith
length-remove_all (uid ∷ uids) m =
    omega (arith, length-remove_all uids (remove uid m), length-remove uid m)

issue-bound :
    (m : SessionAnchors) (uid : String) (token ac now : ℕ)
    → length m ≤ max_map_entries
    → length (issue m uid token ac now).0 ≤ max_map_entries
unfolding issue
issue-bound m uid token ac now h =
    ground (arith, length-insert uid (record { token = token; ac = ac; issued_at = now }) m)

upsert-bound :
    (m : CameraRegistry) (uid : String) (addr : SocketAddr) (token now : ℕ)
    → length m ≤ max_map_entries
    → length (upsert m uid addr token now).0 ≤ max_map_entries
unfolding upsert
upsert-bound m uid addr token now h =
    ground (arith, length-insert uid (record { addr = addr; token = token; last_seen = now }) m)

abbrev pub Bounded : Maps → Type 0
Bounded maps = (length maps.0 ≤ max_map_entries) × (length maps.1 ≤ max_map_entries)

perform-Bounded : (maps : Maps) (c : Call) → Bounded maps → Bounded (perform maps c)
unfolding perform purge_anchors purge_cameras
perform-Bounded (anchors, cameras) (call_issue uid token ac now) (h, k) =
    (issue-bound anchors uid token ac now h, k)
perform-Bounded (anchors, cameras) (call_purge_anchors now stale_after) (h, k) = (
  omega (
    arith,
    h,
    length-remove_all
        (stale_uids (λ (a : SessionAnchor). is_stale now stale_after a.issued_at) anchors) anchors,
  ),
  k,
)
perform-Bounded (anchors, cameras) (call_upsert uid addr token now) (h, k) =
    (h, upsert-bound cameras uid addr token now k)
perform-Bounded (anchors, cameras) (call_purge_cameras now stale_after) (h, k) = (
  h,
  omega (
    arith,
    k,
    length-remove_all
        (stale_uids (λ (e : CameraEntry). is_stale now stale_after e.last_seen) cameras) cameras,
  ),
)

perform_all-Bounded : (maps : Maps) (cs : List Call) → Bounded maps → Bounded (perform_all maps cs)
unfolding perform_all
perform_all-Bounded maps [] h = h
perform_all-Bounded maps (c ∷ cs) h =
    perform_all-Bounded (perform maps c) cs (perform-Bounded maps c h)

-- Whatever calls arrive, neither map of the wake server ever holds more than 1024 entries.
perform_all_bounded :
    (cs : List Call)
    → (length (perform_all ([], []) cs).0 ≤ 1024) × (length (perform_all ([], []) cs).1 ≤ 1024)
perform_all_bounded cs = perform_all-Bounded ([], []) cs (omega arith, omega arith)
