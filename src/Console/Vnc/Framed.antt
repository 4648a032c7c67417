-- ===== src/Console/Vnc/Framed.antt =====
-- src/console/vnc.ts, method receive: the size of the screen that a session holds.
use pve_agent.Base.{
  leb, Bool-cases, length-replicate, Outcome, ok, throw, Buffer, ℕ, zero, suc, ◌*◌, inl, inr, ◌&&◌,
  some, List,
}
use pve_agent.Console.Rfb.{
  ParseResult, parsed, need, fail, ServerMessage, update, bell, cut_text, colour_map, Rectangle,
  raw, copy, resize,
}
use pve_agent.Console.Vnc.Surface.{
  Framebuffer, new_framebuffer, apply_raw, apply_copy_rect, resize_surface,
}
use pve_agent.Console.Vnc.Session.{
  Session, VncError, State, version, security_types, challenge, security_result, server_init,
  message, rectangles, M, ◌>>◌, return, fail_session, teardown, reset_receiver, is_some,
}
use pve_agent.Console.Vnc.Receive.{
  step, step_in, consume, receive_loop, receive_rounds, receive, catch_failure, apply, take_result,
  unit_step, choose_security, request_incremental, settle, step_version, step_challenge,
  step_security_result, step_server_init, step_message, last_rectangle, finish_rectangle,
  step_rectangle,
}
use pve_agent.Console.Vnc.Sizes.{
  IsSized, new_framebuffer-IsSized, apply_raw-IsSized, apply_copy_rect-IsSized,
}
use mathlib.Core.List.{flatten}
use pve_agent.Console.Vnc.Keeping.{
  IsFramed, Keeps, bind-Keeps, checked-Keeps, get-Keeps, keeping, modify-Keeps, option-Keeps,
  required-Keeps, send-Keeps, set_framebuffer-Keeps,
}

choose_security-Keeps : (types : List ℕ) → Keeps (choose_security types)
unfolding choose_security
choose_security-Keeps types = search (keeping, send-Keeps)

request_incremental-Keeps : Keeps request_incremental
unfolding request_incremental
request_incremental-Keeps =
    bind-Keeps _ _ get-Keeps
      λ s. option-Keeps s.framebuffer _ _ (search keeping) λ fb. search keeping

settle-Keeps : (width height : ℕ) → Keeps (settle width height)
unfolding settle
settle-Keeps width height = search (keeping, modify-Keeps)

step_server_init-Keeps : (width height : ℕ) → Keeps (step_server_init width height)
unfolding step_server_init new_framebuffer
step_server_init-Keeps width height = checked-Keeps width height _ λ small _.
    search
      (
        keeping,
        send-Keeps,
        settle-Keeps,
        set_framebuffer-Keeps,
        new_framebuffer-IsSized width height,
      )
      depth 14

resize_surface-IsSized :
    (fb : Framebuffer) (width height : ℕ) → IsSized (resize_surface fb width height)
unfolding resize_surface
resize_surface-IsSized fb width height = length-replicate (width * height * 4) 0

apply-Keeps : (fb : Framebuffer) (r : Rectangle) → IsFramed (some fb) → Keeps (apply fb r)
unfolding apply apply_raw apply_copy_rect resize_surface
apply-Keeps fb (raw x y w h bytes) (sized, small) =
    search (keeping, modify-Keeps, set_framebuffer-Keeps, apply_raw-IsSized fb x y w h bytes sized)
apply-Keeps fb (copy x y w h src_x src_y) (sized, small) = search (
  keeping,
  modify-Keeps,
  set_framebuffer-Keeps,
  apply_copy_rect-IsSized fb x y w h src_x src_y sized,
)
apply-Keeps fb (resize width height) framed = checked-Keeps width height _ λ small _.
    search (keeping, modify-Keeps, set_framebuffer-Keeps, resize_surface-IsSized fb width height)

last_rectangle-Keeps : Keeps last_rectangle
unfolding last_rectangle
last_rectangle-Keeps = search (keeping, required-Keeps, request_incremental-Keeps) depth 12

finish_rectangle-Keeps : Keeps finish_rectangle
unfolding finish_rectangle
finish_rectangle-Keeps = search (keeping, modify-Keeps, last_rectangle-Keeps)

step_message-Keeps : (m : ServerMessage) → Keeps (step_message m)
unfolding step_message
step_message-Keeps (update count) = search (keeping, modify-Keeps, request_incremental-Keeps)
step_message-Keeps bell = search keeping
step_message-Keeps (cut_text text) = search keeping
step_message-Keeps colour_map = search keeping

take_result-Keeps : {A : Type 0} (r : ParseResult A) → Keeps (take_result r)
unfolding take_result
take_result-Keeps (parsed value n) = search keeping
take_result-Keeps (need n) = search (keeping, modify-Keeps)
take_result-Keeps (fail e) = search keeping

unit_step-Keeps :
    {A : Type 0} (r : ParseResult A) (act : A → M (Unit {0}))
    → ((a : A) → Keeps (act a))
    → Keeps (unit_step r act)
unit_step-Keeps r act h = bind-Keeps (take_result r) _ (take_result-Keeps r) λ taken.
    option-Keeps taken _ (λ p. act p.0 >> return p.1) (search keeping) λ p. search (keeping, h)

step_challenge-Keeps : (buf : Buffer) → Keeps (step_challenge buf)
unfolding step_challenge
step_challenge-Keeps buf = search (keeping, modify-Keeps, send-Keeps)

step_version-Keeps : Keeps step_version
unfolding step_version
step_version-Keeps = search (keeping, send-Keeps)

step_security_result-Keeps : Keeps step_security_result
unfolding step_security_result
step_security_result-Keeps = search (keeping, send-Keeps)

step_in-Keeps : (state : State) (buf : Buffer) → Keeps (step_in state buf)
unfolding step_in step_rectangle
step_in-Keeps version buf = unit_step-Keeps _ _ λ _. step_version-Keeps
step_in-Keeps security_types buf = unit_step-Keeps _ _ choose_security-Keeps
step_in-Keeps challenge buf = step_challenge-Keeps buf
step_in-Keeps security_result buf = unit_step-Keeps _ _ λ _. step_security_result-Keeps
step_in-Keeps server_init buf =
    unit_step-Keeps _ _ λ init. step_server_init-Keeps init.width init.height
step_in-Keeps message buf = unit_step-Keeps _ _ step_message-Keeps
step_in-Keeps rectangles buf = required-Keeps _ λ fb framed.
    unit_step-Keeps _ _ λ r. bind-Keeps _ _ (apply-Keeps fb r framed) λ _. finish_rectangle-Keeps

consume-IsFramed :
    (again : Session → Outcome VncError (Unit {0}) × Session) (buf : Buffer)
    (r : Outcome VncError ℕ × Session)
    → Keeps again
    → IsFramed r.1.framebuffer
    → IsFramed ((consume again buf r).1.framebuffer)
unfolding consume
consume-IsFramed again buf (throw error, s) k h = h
consume-IsFramed again buf (ok zero, s) k h = h
consume-IsFramed again buf (ok (suc n), s) k h = k.on _ h

receive_loop-Keeps : (fuel : ℕ) → Keeps (receive_loop fuel)
unfolding receive_rounds step
receive_loop-Keeps zero = record { on = λ s h. h }
receive_loop-Keeps (suc fuel) = record {
  on = λ s h. elim (Bool-cases (is_some s.socket && leb s.needed s.buffered)) [
    | inr ends ↦ rw (ends, receive_rounds) h
    | inl goes ↦
        rw (goes, receive_rounds)
          (consume-IsFramed (receive_loop fuel) (flatten s.chunks) (step (flatten s.chunks) s)
            (receive_loop-Keeps fuel) ((step_in-Keeps s.state (flatten s.chunks)).on s h))
  ];
}

catch_failure-IsFramed :
    (r : Outcome VncError (Unit {0}) × Session)
    → IsFramed r.1.framebuffer
    → IsFramed ((catch_failure r).framebuffer)
unfolding catch_failure fail_session teardown reset_receiver
catch_failure-IsFramed (ok u, s) h = h
catch_failure-IsFramed (throw e, s) h = h

-- After bytes arrive, whatever they are, the session that held no screen, or a screen with four bytes
-- for each pixel and at most `max_screen_pixels` pixels, holds none or such a screen again.
pub receive-IsFramed :
    (chunk : Buffer) (s : Session)
    → IsFramed s.framebuffer
    → IsFramed ((receive chunk s).framebuffer)
unfolding receive
receive-IsFramed chunk s h = catch_failure-IsFramed _ ((receive_loop-Keeps _).on _ h)
