-- ===== src/RtspSession/Examples.antt =====
-- A session that is set up, played and paused.
use bairelay.Base.{◌≡◌, List, [], ◌∷◌}
use bairelay.RtspSession.{
  playing, allowed, wrong_state, RtspMethod, options, setup, play, pause, new_session,
  handle_method,
}
use bairelay.RtspSession.Methods.{handle_all, handle_all-new_session}

abbrev requests : List RtspMethod
requests = options ∷ setup ∷ play ∷ pause ∷ []

handle_all-new_session_example :
    let s = handle_all (new_session (0x61 ∷ []) 60000000000 5) requests in
    (s.state ≡ playing)
    × ((handle_method s setup).1 ≡ wrong_state)
    × ((handle_method s play).1 ≡ allowed)
handle_all-new_session_example = handle_all-new_session (0x61 ∷ []) 60000000000 5 requests
