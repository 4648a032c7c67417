-- ===== src/Console/Vnc/Input.antt =====
-- src/console/vnc.ts, class VncSession: what the caller does. A character of `type` is a code point
-- of the text; its waits between characters are left out.
use pve_agent.Base.{
  ltb, leb, ◌==◌, if◌then◌else◌, length, any, keep, Text, codes, Outcome, ok, throw, ℕ, zero, suc,
  ◌+◌, ◌-◌, ◌/◌, ◌%◌, Bool, true, false, not, ◌||◌, Option, none, some, List, [], ◌∷◌, ◌++◌,
}
use mathlib.Core.List.{reverse}
use pve_agent.Console.Rfb.Client.{build_key_event, build_pointer_event, build_client_cut_text}
use pve_agent.Console.Rfb.Keys.{KeyValue, keysym, inherited, char_to_keysym, parse_key_combo}
use pve_agent.Console.Vnc.Session.{
  version, unknown_key, not_a_number, outside, already_attached, handshake_closed,
  handshake_timeout, socket_error, Session, M, ◌>>=◌, ◌>>◌, return, raise, get_session, modify,
  when, is_open, transmit, send, require_framebuffer, reset_receiver, teardown, fail_session,
}
use pve_agent.Console.Vnc.Receive.{request_area}

-- The state that `attach` begins with. The promise it returns shows in the events.
unfoldable pub attach : Bool → Text → M (Unit {0})
unfolding reset_receiver
attach opened password = do
  s ← get_session
  elim s.socket [
    | some _ ↦ raise already_attached
    | none ↦ modify λ s.
        let fresh = reset_receiver s in
        record fresh {
          socket = some opened;
          password = password;
          state = version;
          close_emitted = false;
          last_error = none;
          settling = true;
        }
  ]

-- The handlers that `attach` installs, beside `receive`, and its timer.
unfoldable pub on_error : Session → Session
unfolding fail_session
on_error s = fail_session socket_error s

unfoldable pub on_close : Session → Session
unfolding fail_session teardown
on_close s = if s.settling then fail_session handshake_closed s else teardown s

unfoldable pub on_timeout : Session → Session
unfolding fail_session
on_timeout s = fail_session handshake_timeout s

unfoldable pub lift_key : {A : Type 0} → Outcome Text A → M A
lift_key (ok a) = return a
lift_key (throw key) = raise (unknown_key key)

-- A key that is no number cannot be written to the message.
unfoldable pub send_key_event : Bool → KeyValue → M (Unit {0})
unfolding send
send_key_event down (keysym n) = send (build_key_event down n)
send_key_event down (inherited name) = raise not_a_number

abbrev insert_held : ℕ → List ℕ → List ℕ
insert_held n held = if any (λ m. m == n) held then held else held ++ n ∷ []

abbrev delete_held : ℕ → List ℕ → List ℕ
delete_held n held = keep (λ m. not (m == n)) held

hold : KeyValue → M (Unit {0})
hold (keysym n) = modify λ s. record s { held = insert_held n s.held; tracked = true }
hold (inherited name) = raise not_a_number

forget_held : KeyValue → M (Unit {0})
forget_held (keysym n) = modify λ s.
    let held = delete_held n s.held in
    record s { held = held; tracked = if length held == 0 then false else s.tracked }
forget_held (inherited name) = raise not_a_number

unfoldable pub key_down : Text → M (Unit {0})
unfolding lift_key send_key_event hold
key_down key = do value ← lift_key (char_to_keysym key); send_key_event true value; hold value

unfoldable pub key_up : Text → M (Unit {0})
unfolding lift_key send_key_event forget_held
key_up key = do value ← lift_key (char_to_keysym key); send_key_event false value; forget_held value

unfoldable pub send_keys : Bool → List KeyValue → M (Unit {0})
send_keys down [] = return tt
send_keys down (value ∷ values) = do send_key_event down value; send_keys down values

unfoldable pub press : Text → M (Unit {0})
unfolding lift_key send_keys send_key_event
press combo = do
  keysyms ← lift_key (parse_key_combo combo)
  send_keys true keysyms
  send_keys false (reverse keysyms)

unfoldable pub release_all : List ℕ → M (Unit {0})
release_all [] = return tt
release_all (n ∷ held) = do
  s ← get_session
  when (is_open s.socket) (transmit (build_key_event false n))
  release_all held

unfoldable pub release_keys : M (Unit {0})
unfolding release_all transmit
release_keys = do
  s ← get_session
  release_all s.held
  modify λ s. record s { held = []; tracked = false }

unfoldable pub close : M (Unit {0})
unfolding release_keys teardown
close = do release_keys; modify teardown

-- `SHIFTED_CHARS.has(char)`.
unfoldable pub is_shifted : ℕ → Bool
is_shifted c = any (λ d. d == c) (codes "~!@#$%^&*()_+{}|:\"<>?ABCDEFGHIJKLMNOPQRSTUVWXYZ")

-- A code point in UTF-16.
abbrev units : ℕ → Text
units c =
    if ltb 0xffff c
    then (0xd800 + (c - 0x10000) / 1024) ∷ (0xdc00 + (c - 0x10000) % 1024) ∷ []
    else c ∷ []

-- `TYPED_CONTROL_KEYS[char] ?? char`, and `none` for a control character that is skipped.
unfoldable pub typed_key : ℕ → Option Text
typed_key c =
    if c == 10 || c == 13
    then some (codes "enter")
    else if c == 9
    then some (codes "tab")
    else if ltb c 32 || c == 127
    then none
    else some (units c)

shift_key : KeyValue
shift_key = keysym 0xffe1

type_char : ℕ → Text → M (Unit {0})
unfolding send_key_event lift_key shift_key
type_char c key = do
  value ← lift_key (char_to_keysym key)
  when (is_shifted c) (send_key_event true shift_key)
  send_key_event true value
  send_key_event false value
  when (is_shifted c) (send_key_event false shift_key)

unfoldable pub type_text : Text → M (Unit {0})
unfolding type_char typed_key
type_text [] = return tt
type_text (c ∷ text) =
    elim (typed_key c) [ none ↦ return tt | some key ↦ type_char c key ] >> type_text text

-- A coordinate is an integer that is not negative, or one that is refused.
pub data Coordinate : Type 0 where
  at : ℕ → Coordinate
  negative fractional : Coordinate

unfoldable pub send_pointer_event : ℕ → Coordinate → Coordinate → M (Unit {0})
unfolding require_framebuffer send
send_pointer_event button_mask (at x) (at y) = do
  fb ← require_framebuffer
  if leb fb.width x || leb fb.height y
      then raise (outside x y)
      else send (build_pointer_event button_mask x y)
send_pointer_event button_mask x y = do _ ← require_framebuffer; raise not_a_number

unfoldable pub move : Coordinate → Coordinate → M (Unit {0})
unfolding send_pointer_event
move x y = send_pointer_event 0 x y

pub data MouseButton : Type 0 where
  left middle right : MouseButton

abbrev pub button_bit : MouseButton → ℕ
button_bit left = 1
button_bit middle = 2
button_bit right = 4

unfoldable pub click : Coordinate → Coordinate → MouseButton → M (Unit {0})
unfolding send_pointer_event
click x y button = do
  send_pointer_event 0 x y
  send_pointer_event (button_bit button) x y
  send_pointer_event 0 x y

-- The mask is 8 for a wheel click up and 16 for one down.
unfoldable pub scroll : ℕ → Coordinate → Coordinate → Bool → M (Unit {0})
unfolding send_pointer_event
scroll zero x y up = return tt
scroll (suc amount) x y up =
    (send_pointer_event (if up then 8 else 16) x y >> send_pointer_event 0 x y)
    >> scroll amount x y up

unfoldable pub send_clipboard : Text → M (Unit {0})
unfolding send
send_clipboard text = send (build_client_cut_text text)

unfoldable pub request_update : M ℕ
unfolding require_framebuffer send
request_update = do fb ← require_framebuffer; send (request_area false fb); return fb.update_seq
