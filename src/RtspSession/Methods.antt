-- ===== src/RtspSession/Methods.antt =====
-- A session over the methods of its requests.
use bairelay.Base.{ℕ, ◌≡◌, refl, ap, ◌∙◌, Bool, true, false, List, [], ◌∷◌, if◌then◌else◌, arith}
use bairelay.Base.HashMap.{String}
use bairelay.RtspSession.{
  SessionState, init, ready, playing, allowed, wrong_state, RtspMethod, options, describe, setup,
  play, pause, teardown, get_parameter, Session, new_session, transition, handle_method,
}

unfoldable pub handle_all : Session → List RtspMethod → Session
handle_all s [] = s
handle_all s (method ∷ methods) = handle_all (handle_method s method).0 methods

abbrev pub is_setup : RtspMethod → Bool
is_setup setup = true
is_setup options = false
is_setup describe = false
is_setup play = false
is_setup pause = false
is_setup teardown = false
is_setup get_parameter = false

abbrev pub is_play : RtspMethod → Bool
is_play play = true
is_play options = false
is_play describe = false
is_play setup = false
is_play pause = false
is_play teardown = false
is_play get_parameter = false

abbrev pub any : (RtspMethod → Bool) → List RtspMethod → Bool
any p [] = false
any p (method ∷ methods) = if p method then true else any p methods

-- A PLAY behind a SETUP.
abbrev pub played : List RtspMethod → Bool
played [] = false
played (method ∷ methods) = if is_setup method then any is_play methods else played methods

-- The state that the methods amount to.
abbrev pub state_of : List RtspMethod → SessionState
state_of methods = if played methods then playing else if any is_setup methods then ready else init

handle_all-playing :
    (s : Session) (methods : List RtspMethod)
    → s.state ≡ playing
    → (handle_all s methods).state ≡ playing
unfolding handle_all handle_method transition
handle_all-playing s [] h = h
handle_all-playing s (method ∷ methods) h =
    handle_all-playing (handle_method s method).0 methods (keeps method)
  where
    keeps : (m : RtspMethod) → (handle_method s m).0.state ≡ playing
    keeps options = h
    keeps describe = h
    keeps get_parameter = h
    keeps teardown = h
    keeps setup = rw (h, transition) refl
    keeps play = rw (h, transition) refl
    keeps pause = rw (h, transition) refl

handle_all-ready :
    (s : Session) (methods : List RtspMethod)
    → s.state ≡ ready
    → (handle_all s methods).state ≡ (if any is_play methods then playing else ready)
unfolding handle_all handle_method transition
handle_all-ready s [] h = h
handle_all-ready s (options ∷ methods) h = handle_all-ready (handle_method s options).0 methods h
handle_all-ready s (describe ∷ methods) h = handle_all-ready (handle_method s describe).0 methods h
handle_all-ready s (get_parameter ∷ methods) h =
    handle_all-ready (handle_method s get_parameter).0 methods h
handle_all-ready s (teardown ∷ methods) h = handle_all-ready (handle_method s teardown).0 methods h
handle_all-ready s (setup ∷ methods) h =
    handle_all-ready (handle_method s setup).0 methods (rw (h, transition) refl)
handle_all-ready s (pause ∷ methods) h =
    handle_all-ready (handle_method s pause).0 methods (rw (h, transition) refl)
handle_all-ready s (play ∷ methods) h =
    handle_all-playing (handle_method s play).0 methods (rw (h, transition) refl)

handle_all-init :
    (s : Session) (methods : List RtspMethod)
    → s.state ≡ init
    → (handle_all s methods).state ≡ state_of methods
unfolding handle_all handle_method transition
handle_all-init s [] h = h
handle_all-init s (options ∷ methods) h = handle_all-init (handle_method s options).0 methods h
handle_all-init s (describe ∷ methods) h = handle_all-init (handle_method s describe).0 methods h
handle_all-init s (get_parameter ∷ methods) h =
    handle_all-init (handle_method s get_parameter).0 methods h
handle_all-init s (teardown ∷ methods) h = handle_all-init (handle_method s teardown).0 methods h
handle_all-init s (play ∷ methods) h =
    handle_all-init (handle_method s play).0 methods (rw (h, transition) refl)
handle_all-init s (pause ∷ methods) h =
    handle_all-init (handle_method s pause).0 methods (rw (h, transition) refl)
handle_all-init s (setup ∷ methods) h =
    handle_all-ready (handle_method s setup).0 methods (rw (h, transition) refl)

played-setup : (methods : List RtspMethod) → played methods ≡ true → any is_setup methods ≡ true
played-setup [] h = h
played-setup (setup ∷ methods) h = refl
played-setup (options ∷ methods) h = played-setup methods h
played-setup (describe ∷ methods) h = played-setup methods h
played-setup (play ∷ methods) h = played-setup methods h
played-setup (pause ∷ methods) h = played-setup methods h
played-setup (teardown ∷ methods) h = played-setup methods h
played-setup (get_parameter ∷ methods) h = played-setup methods h

-- Whatever methods a fresh session has handled, it is playing where a PLAY came behind a SETUP,
-- ready where there was a SETUP without that, and initial otherwise; a SETUP is refused just
-- where it is playing, and a PLAY just where there was no SETUP.
pub handle_all-new_session :
    (id : String) (timeout now : ℕ) (methods : List RtspMethod)
    → let s = handle_all (new_session id timeout now) methods in
      (s.state ≡ state_of methods)
      × ((handle_method s setup).1 ≡ (if played methods then wrong_state else allowed))
      × ((handle_method s play).1 ≡ (if any is_setup methods then allowed else wrong_state))
unfolding handle_method new_session
handle_all-new_session id timeout now methods =
    let h = handle_all-init (new_session id timeout now) methods refl in
    (
      h,
      ap (λ x. (transition x setup).1) h
          ∙ unfold transition in ground (arith, played-setup methods),
      ap (λ x. (transition x play).1) h ∙ unfold transition in ground (arith, played-setup methods),
    )
