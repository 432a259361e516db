-- ===== src/RtspSession.antt =====
-- The states of an RTSP session: src/rtsp/protocol/session.rs. An instant is a number of nanoseconds, and what reads
-- the clock takes it as an argument. The random identifier is an argument of `new_session`.
pub mod Methods
mod Examples
use bairelay.Base.{ℕ, ◌+◌, ◌-◌, Bool, leb}
use bairelay.Base.HashMap.{String}

pub data SessionState : Type 0 where
  init : SessionState
  ready : SessionState
  playing : SessionState

pub data Transition : Type 0 where
  allowed : Transition
  wrong_state : Transition
  terminated : Transition

pub data RtspMethod : Type 0 where
  options : RtspMethod
  describe : RtspMethod
  setup : RtspMethod
  play : RtspMethod
  pause : RtspMethod
  teardown : RtspMethod
  get_parameter : RtspMethod

pub record Session : Type 0 where
  pub id : String
  pub state : SessionState
  pub last_activity : ℕ
  pub timeout : ℕ

unfoldable pub new_session : String → ℕ → ℕ → Session
new_session id timeout now = record {
  id = id;
  state = init;
  last_activity = now;
  timeout = timeout;
}

unfoldable touch : ℕ → Session → Session
touch now s = record s { last_activity = now }

-- `elapsed` stops at zero.
unfoldable is_expired : ℕ → Session → Bool
is_expired now s = leb s.timeout (now - s.last_activity)

unfoldable expires_at : Session → ℕ
expires_at s = s.last_activity + s.timeout

-- The `match` of `handle_method`.
unfoldable pub transition : SessionState → RtspMethod → SessionState × Transition
transition s options = (s, allowed)
transition s get_parameter = (s, allowed)
transition s describe = (s, allowed)
transition s teardown = (s, terminated)
transition init pause = (init, wrong_state)
transition ready pause = (ready, allowed)
transition playing pause = (playing, allowed)
transition init setup = (ready, allowed)
transition ready setup = (ready, allowed)
transition playing setup = (playing, wrong_state)
transition init play = (init, wrong_state)
transition ready play = (playing, allowed)
transition playing play = (playing, allowed)

unfoldable pub handle_method : Session → RtspMethod → Session × Transition
unfolding transition
handle_method s method = let r = transition s.state method in (record s { state = r.0 }, r.1)
