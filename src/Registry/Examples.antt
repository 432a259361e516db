-- ===== src/Registry/Examples.antt =====
-- The theorems of the wake server's maps on small maps.
use bairelay.Base.{◌≡◌, refl, List, [], ◌∷◌, arith}
use bairelay.Base.HashMap.{String, str_eq, contains_key}
use bairelay.Registry.{
  SocketAddr, CameraEntry, CameraRegistry, SessionAnchors, purge_cameras, purge_anchors, lookup,
  lookup_fresh,
}
use bairelay.Registry.Bound.{Call, call_issue, call_upsert, call_purge_cameras}
use bairelay.Registry.Purge.{lookups-purge}
use bairelay.Registry.Lookup.{lookup_fresh-Answers, Answers}

abbrev home : SocketAddr
home = record { ip = 3232235777; port = 9999 }

-- "A", and "AB", the same with its firmware suffix.
abbrev short : String
short = 65 ∷ []

abbrev long : String
long = 65 ∷ 66 ∷ []

abbrev heartbeat : CameraEntry
heartbeat = record { addr = home; token = 1; last_seen = 100 }

abbrev cameras : CameraRegistry
cameras = (long, heartbeat) ∷ ((67 ∷ []), record { addr = home; token = 2; last_seen = 0 }) ∷ []

abbrev anchors : SessionAnchors
anchors = (long, record { token = 1; ac = 2; issued_at = 0 }) ∷ []

abbrev calls : List Call
calls = call_upsert long home 1 100 ∷ call_issue long 1 2 100 ∷ call_purge_cameras 500 100 ∷ []

lookups-purge_example :
    (lookup (purge_anchors anchors 150 120).0 short 160 120 ≡ lookup anchors short 160 120)
    × (lookup_fresh (purge_cameras cameras 150 120).0 short 160 120
        ≡ lookup_fresh cameras short 160 120)
unfolding contains_key str_eq
lookups-purge_example =
    lookups-purge anchors cameras short 150 160 120 (refl, tt) (refl, (refl, tt)) (omega arith)

lookup_fresh-Answers_example : Answers cameras short 150 100 (lookup_fresh cameras short 150 100)
lookup_fresh-Answers_example = lookup_fresh-Answers cameras short 150 100
