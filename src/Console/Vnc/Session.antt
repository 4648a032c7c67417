-- ===== src/Console/Vnc/Session.antt =====
-- src/console/vnc.ts, class VncSession: its fields, and the monad of its methods. A throw keeps the
-- changes made before it. What the socket is handed and what listeners and waiting callers are told
-- is appended to two logs; a timer that is set or cleared shows only in the error of its expiry.
use pve_agent.Base.{
  if◌then◌else◌, Text, Outcome, ok, throw, Buffer, ℕ, Bool, true, false, not, Option, none, some,
  List, [], ◌∷◌, ◌++◌,
}
use pve_agent.Console.Rfb.{RfbError}
use pve_agent.Console.Vnc.Surface.{Framebuffer}

pub data State : Type 0 where
  version security_types challenge security_result server_init message rectangles : State

pub data VncError : Type 0 where
  rfb : RfbError → VncError
  message_too_long : ℕ → VncError
  not_connected no_framebuffer no_password : VncError
  no_usable_security : List ℕ → VncError
  screen_too_large : (width height : ℕ) → VncError
  handshake_timeout handshake_closed closed_early already_attached : VncError
  socket_error : VncError
  unknown_key : Text → VncError
  not_a_number : VncError
  outside : (x y : ℕ) → VncError

-- What a listener, or the caller of `attach`, is told; and the end of the socket.
pub data Event : Type 0 where
  update_event : ℕ → Event
  resize_event : (width height : ℕ) → Event
  clipboard_event : Text → Event
  bell_event close_event socket_closed : Event
  error_event : VncError → Event
  resolved : (width height : ℕ) → Event
  rejected : VncError → Event

pub record Session : Type 0 where
  -- The socket, if there is one, by its `open` flag.
  pub socket : Option Bool
  pub framebuffer : Option Framebuffer
  pub chunks : List Buffer
  pub buffered : ℕ
  pub needed : ℕ
  pub state : State
  pub pending_rects : ℕ
  pub painted : Bool
  -- A caller of `attach` waits (`settler` is defined).
  pub settling : Bool
  pub password : Text
  -- The set of keys held down, in the order of insertion.
  pub held : List ℕ
  -- The session is in the module's set `holdingKeys`.
  pub tracked : Bool
  pub last_error : Option VncError
  pub close_emitted : Bool
  pub max_message_bytes : ℕ
  pub sent : List Buffer
  pub events : List Event

abbrev pub M : Type 0 → Type 0
M A = Session → Outcome VncError A × Session

abbrev pub after :
    {A B : Type 0} → (A → M B) → Outcome VncError A × Session → Outcome VncError B × Session
after f (ok a, s) = f a s
after f (throw e, s) = (throw e, s)

infixl 5 ◌>>=◌
abbrev pub ◌>>=◌ : {A B : Type 0} → M A → (A → M B) → M B
◌>>=◌ first next session = after next (first session)

infixl 5 ◌>>◌
abbrev pub ◌>>◌ : {B : Type 0} → M (Unit {0}) → M B → M B
first >> second = first >>= λ _. second

abbrev pub return : {A : Type 0} → A → M A
return a s = (ok a, s)

abbrev pub raise : {A : Type 0} → VncError → M A
raise e s = (throw e, s)

abbrev pub get_session : M Session
get_session s = (ok s, s)

abbrev pub modify : (Session → Session) → M (Unit {0})
modify f s = (ok tt, f s)

abbrev pub when : Bool → M (Unit {0}) → M (Unit {0})
when true m = m
when false m = return tt

unfoldable pub emit : Event → M (Unit {0})
emit event = modify λ s. record s { events = s.events ++ event ∷ [] }

-- The socket is there and open.
abbrev pub is_open : Option Bool → Bool
is_open (some true) = true
is_open _ = false

abbrev pub is_some {ℓ} : {A : Type ℓ} → Option A → Bool
is_some none = false
is_some (some a) = true

-- `this.socket.send(data)` behind a test of `open`.
unfoldable pub transmit : Buffer → M (Unit {0})
transmit bytes = modify λ s. record s { sent = s.sent ++ bytes ∷ [] }

unfoldable pub send : Buffer → M (Unit {0})
unfolding transmit
send bytes = do s ← get_session; if is_open s.socket then transmit bytes else raise not_connected

unfoldable pub require_framebuffer : M Framebuffer
require_framebuffer = do
  s ← get_session
  elim s.framebuffer [ some fb ↦ return fb | none ↦ raise no_framebuffer ]

unfoldable pub set_state : State → M (Unit {0})
set_state state = modify λ s. record s { state = state }

unfoldable pub set_framebuffer : Framebuffer → M (Unit {0})
set_framebuffer fb = modify λ s. record s { framebuffer = some fb }

unfoldable pub reset_receiver : Session → Session
reset_receiver s = record s {
  chunks = [];
  buffered = 0;
  needed = 1;
  pending_rects = 0;
  painted = false;
}

abbrev emit_to : List Event → Bool → Event → List Event
emit_to events true event = events ++ event ∷ []
emit_to events false event = events

-- The socket is closed, `close` is emitted once, and a caller still waiting is rejected.
unfoldable pub teardown : Session → Session
unfolding reset_receiver
teardown s =
    let closed = emit_to s.events (is_some s.socket) socket_closed in
    let told = emit_to closed (not s.close_emitted) close_event in
    let fresh = reset_receiver s in
    record fresh {
      socket = none;
      state = version;
      settling = false;
      held = [];
      tracked = false;
      close_emitted = true;
      events = emit_to told s.settling (rejected closed_early);
    }

-- The error goes to the caller that waits for the handshake, or else to the listeners.
unfoldable pub fail_session : VncError → Session → Session
unfolding teardown
fail_session error s =
    let ended = teardown (record s { last_error = some error; settling = false }) in
    record ended {
      events = ended.events ++ (if s.settling then rejected error else error_event error) ∷ [];
    }
