-- ===== src/Console/Vnc/Receive.antt =====
-- src/console/vnc.ts, class VncSession: what arrives from the server, in whatever chunks.
use pve_agent.Base.{
  ltb, leb, ◌==◌, if◌then◌else◌, length, take, drop, any, Outcome, ok, throw, Buffer, ℕ, zero, suc,
  ◌+◌, ◌-◌, ◌*◌, Bool, true, false, ◌&&◌, Option, none, some, List, [], ◌∷◌, ◌++◌,
}
use mathlib.Core.List.{flatten}
use pve_agent.Console.Des.{vnc_des_encrypt}
use pve_agent.Console.Rfb.{
  ParseResult, parsed, need, fail, ServerMessage, update, bell, cut_text, colour_map, Rectangle,
  raw, copy, resize, security_none, security_vnc_auth, rfb_encoding_raw, rfb_encoding_copyrect,
  rfb_encoding_desktop_size, parse_protocol_version, parse_security_types, parse_security_result,
  parse_server_init, parse_server_message, parse_rectangle,
}
use pve_agent.Console.Rfb.Client.{
  client_version, build_client_init, build_set_pixel_format, build_set_encodings,
  build_fb_update_request,
}
use pve_agent.Console.Vnc.Surface.{
  Framebuffer, new_framebuffer, apply_raw, apply_copy_rect, resize_surface,
}
use pve_agent.Console.Vnc.Session.{
  State, version, security_types, challenge, security_result, server_init, message, rectangles,
  VncError, rfb, message_too_long, no_password, no_usable_security, screen_too_large, update_event,
  resize_event, clipboard_event, bell_event, resolved, Session, M, ◌>>=◌, ◌>>◌, return, raise,
  get_session, modify, when, emit, is_open, is_some, transmit, send, require_framebuffer, set_state,
  set_framebuffer, fail_session,
}

abbrev pub max_screen_pixels : ℕ
max_screen_pixels = 7680 * 4320

abbrev encodings : List ℕ
encodings = rfb_encoding_copyrect ∷ rfb_encoding_raw ∷ rfb_encoding_desktop_size ∷ []

-- The method `take`: a parsed message, or `none` once `needed` is recorded.
unfoldable pub take_result : {A : Type 0} → ParseResult A → M (Option (A × ℕ))
take_result (parsed value n) = return (some (value, n))
take_result (need n) = do
  s ← get_session
  if ltb s.max_message_bytes n
      then raise (message_too_long n)
      else (do modify (λ s. record s { needed = n }); return none)
take_result (fail error) = raise (rfb error)

-- A step that reads one unit by a parser: 0 bytes are consumed while the unit is incomplete.
abbrev pub unit_step : {A : Type 0} → ParseResult A → (A → M (Unit {0})) → M ℕ
unit_step result act = do
  taken ← take_result result
  elim taken [ none ↦ return 0 | some p ↦ do act p.0; return p.1 ]

unfoldable pub check_screen_size : ℕ → ℕ → M (Unit {0})
check_screen_size width height =
    if ltb max_screen_pixels (width * height)
    then raise (screen_too_large width height)
    else return tt

unfoldable pub choose_security : List ℕ → M (Unit {0})
choose_security types = do
  s ← get_session
  if any (λ t. t == security_vnc_auth) types && ltb 0 (length s.password)
      then (do send (security_vnc_auth ∷ []); set_state challenge)
      else if any (λ t. t == security_none) types
      then (do send (security_none ∷ []); set_state security_result)
      else if any (λ t. t == security_vnc_auth) types
      then raise no_password
      else raise (no_usable_security types)

abbrev pub request_area : Bool → Framebuffer → Buffer
request_area incremental fb = build_fb_update_request incremental 0 0 fb.width fb.height

unfoldable pub request_incremental : M (Unit {0})
request_incremental = do
  s ← get_session
  elim s.framebuffer [
    | none ↦ return tt
    | some fb ↦ when (is_open s.socket) (transmit (request_area true fb))
  ]

unfoldable pub settle : ℕ → ℕ → M (Unit {0})
unfolding emit
settle width height = do
  s ← get_session
  modify λ s. record s { settling = false }
  when s.settling (emit (resolved width height))

unfoldable pub apply : Framebuffer → Rectangle → M (Unit {0})
unfolding check_screen_size set_framebuffer emit
apply fb (raw x y w h bytes) = do
  set_framebuffer (apply_raw fb x y w h bytes)
  modify λ s. record s { painted = true }
apply fb (copy x y w h src_x src_y) = do
  set_framebuffer (apply_copy_rect fb x y w h src_x src_y)
  modify λ s. record s { painted = true }
apply fb (resize width height) = do
  check_screen_size width height
  set_framebuffer (resize_surface fb width height)
  emit (resize_event width height)
  modify λ s. record s { painted = true }

unfoldable pub step_version : M (Unit {0})
unfolding send set_state
step_version = do send client_version; set_state security_types

unfoldable pub step_challenge : Buffer → M ℕ
unfolding send set_state
step_challenge buf =
    if ltb (length buf) 16 then (do modify (λ s. record s { needed = 16 }); return 0) else do
      s ← get_session
      send (vnc_des_encrypt s.password (take 16 buf))
      set_state security_result
      return 16

unfoldable pub step_security_result : M (Unit {0})
unfolding send set_state
step_security_result = do send (build_client_init true); set_state server_init

unfoldable pub step_server_init : ℕ → ℕ → M (Unit {0})
unfolding check_screen_size set_framebuffer send set_state settle
step_server_init width height = do
  check_screen_size width height
  set_framebuffer (new_framebuffer width height)
  send build_set_pixel_format
  send (build_set_encodings encodings)
  send (build_fb_update_request false 0 0 width height)
  set_state message
  settle width height

unfoldable pub step_message : ServerMessage → M (Unit {0})
unfolding request_incremental set_state emit
step_message (update count) = do
  modify λ s. record s { pending_rects = count; painted = false }
  if count == 0 then request_incremental else set_state rectangles
step_message bell = emit bell_event
step_message (cut_text text) = emit (clipboard_event text)
step_message colour_map = return tt

-- The last rectangle of an update was painted.
unfoldable pub last_rectangle : M (Unit {0})
unfolding request_incremental set_state emit require_framebuffer
last_rectangle = do
  set_state message
  request_incremental
  s ← get_session
  fb ← require_framebuffer
  when s.painted (emit (update_event fb.update_seq))

unfoldable pub finish_rectangle : M (Unit {0})
unfolding last_rectangle
finish_rectangle = do
  modify λ s. record s { pending_rects = s.pending_rects - 1 }
  s ← get_session
  if s.pending_rects == 0 then last_rectangle else return tt

unfoldable pub step_rectangle : Framebuffer → Rectangle → M (Unit {0})
unfolding apply finish_rectangle
step_rectangle fb rect = do apply fb rect; finish_rectangle

-- The method `step`: one protocol unit from the front of `buf`; the bytes consumed.
unfoldable pub step_in : State → Buffer → M ℕ
step_in version buf = unit_step (parse_protocol_version buf) (λ _. step_version)
step_in security_types buf = unit_step (parse_security_types buf) choose_security
step_in challenge buf = step_challenge buf
step_in security_result buf = unit_step (parse_security_result buf) (λ _. step_security_result)
step_in server_init buf =
    unit_step (parse_server_init buf) (λ init. step_server_init init.width init.height)
step_in message buf = unit_step (parse_server_message buf) step_message
step_in rectangles buf = do
  fb ← require_framebuffer
  unit_step (parse_rectangle buf fb.width fb.height) (step_rectangle fb)

unfoldable pub step : Buffer → M ℕ
unfolding step_in
step buf s = step_in s.state buf s

-- What the loop of `receive` does with the bytes that a step consumed.
unfoldable pub consume :
    (Session → Outcome VncError (Unit {0}) × Session)
    → Buffer
    → Outcome VncError ℕ × Session
    → Outcome VncError (Unit {0}) × Session
consume again buf (throw error, s) = (throw error, s)
consume again buf (ok zero, s) = (ok tt, record s { chunks = buf ∷ [] })
consume again buf (ok (suc n), s) =
    let rest = drop (suc n) buf in
    again (record s {
      chunks = if ltb 0 (length rest) then rest ∷ [] else [];
      buffered = length rest;
      needed = 1;
    })

-- The loop of `receive` for at most `fuel` rounds. The source has no such limit: `cut_off` is what
-- stands for a run that needs more rounds.
unfoldable pub receive_rounds :
    (Session → Outcome VncError (Unit {0}) × Session)
    → ℕ
    → Session
    → Outcome VncError (Unit {0}) × Session
unfolding consume
receive_rounds cut_off zero s = cut_off s
receive_rounds cut_off (suc fuel) s = elim (is_some s.socket && leb s.needed s.buffered) [
  | true ↦ consume (receive_rounds cut_off fuel) (flatten s.chunks) (step (flatten s.chunks) s)
  | false ↦ (ok tt, s)
]

abbrev pub receive_loop : ℕ → Session → Outcome VncError (Unit {0}) × Session
receive_loop = receive_rounds (λ s. (ok tt, s))

-- The handler's `catch`.
unfoldable pub catch_failure : Outcome VncError (Unit {0}) × Session → Session
unfolding fail_session
catch_failure (ok _, s) = s
catch_failure (throw error, s) = fail_session error s

unfoldable pub receive : Buffer → Session → Session
unfolding catch_failure
receive chunk s =
    let held = record s { chunks = s.chunks ++ chunk ∷ []; buffered = s.buffered + length chunk } in
    catch_failure (receive_loop (suc held.buffered) held)
