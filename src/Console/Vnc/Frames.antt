-- ===== src/Console/Vnc/Frames.antt =====
-- src/console/vnc.ts, class VncSession: what the methods do not look at, the bytes that are held.
use pve_agent.Base.{
  ltb, ◌==◌, if◌then◌else◌, length, any, Outcome, ok, throw, Buffer, ℕ, ◌-◌, ◌≡◌, refl, ap, ◌∙◌,
  Bool, true, false, ◌&&◌, Option, none, some, List, [], ◌∷◌,
}
use pve_agent.Console.Rfb.{
  ServerMessage, update, bell, cut_text, colour_map, Rectangle, raw, copy, resize, security_none,
  security_vnc_auth,
}
use pve_agent.Console.Vnc.Surface.{Framebuffer}
use pve_agent.Console.Vnc.Session.{
  Session, VncError, Event, State, M, after, when, return, raise, modify, emit, send, transmit,
  set_state, set_framebuffer, require_framebuffer, ◌>>◌, ◌>>=◌, challenge, security_result, message,
  rectangles, resolved, update_event, no_password, no_usable_security, no_framebuffer, is_open,
}
use pve_agent.Console.Vnc.Receive.{
  check_screen_size, choose_security, request_incremental, request_area, settle, apply,
  step_version, step_security_result, step_server_init, step_message, last_rectangle,
  finish_rectangle, step_rectangle,
}

-- The same session with other bytes, another count and another need.
abbrev pub holding : List Buffer → ℕ → ℕ → Session → Session
holding chunks buffered needed s = record s {
  chunks = chunks;
  buffered = buffered;
  needed = needed;
}

abbrev pub put_back :
    {A : Type 0} → List Buffer → ℕ → ℕ → Outcome VncError A × Session → Outcome VncError A × Session
put_back chunks buffered needed (outcome, s) = (outcome, holding chunks buffered needed s)

-- A computation that neither reads nor changes what is held.
pub record Frames {A : Type 0} (m : M A) : Type 0 where
  pub run :
      (chunks : List Buffer) (buffered needed : ℕ) (s : Session)
      → m (holding chunks buffered needed s) ≡ put_back chunks buffered needed (m s)

after-put_back :
    {A B : Type 0} (f : A → M B) (chunks : List Buffer) (buffered needed : ℕ)
    (r : Outcome VncError A × Session)
    → ((a : A) → Frames (f a))
    → after f (put_back chunks buffered needed r) ≡ put_back chunks buffered needed (after f r)
after-put_back f c n k (ok a, s) h = (h a).run c n k s
after-put_back f c n k (throw e, s) h = refl

pub bind-Frames :
    {A B : Type 0} (m : M A) (f : A → M B)
    → Frames m
    → ((a : A) → Frames (f a))
    → Frames (λ s. after f (m s))
bind-Frames m f h k = record {
  run = λ c n needed s. ap (after f) (h.run c n needed s) ∙ after-put_back f c n needed (m s) k;
}

-- What reads the session, but not what is held.
pub get-Frames :
    {A : Type 0} (f : Session → M A)
    → ((c : List Buffer) (n k : ℕ) (s : Session) → f (holding c n k s) ≡ f s)
    → ((s : Session) → Frames (f s))
    → Frames (λ s. f s s)
get-Frames f same h = record {
  run = λ c n k s. ap (λ g. g (holding c n k s)) (same c n k s) ∙ (h s).run c n k s;
}

pub if-Frames :
    {A : Type 0} (b : Bool) (m n : M A) → Frames m → Frames n → Frames (if b then m else n)
if-Frames true m n h k = h
if-Frames false m n h k = k

pub when-Frames : (b : Bool) (m : M (Unit {0})) → Frames m → Frames (when b m)
when-Frames true m h = h
when-Frames false m h = record { run = λ c n k s. refl }

pub return-Frames : {A : Type 0} (a : A) → Frames (return {A = A} a)
return-Frames a = record { run = λ c n k s. refl }

pub raise-Frames : {A : Type 0} (e : VncError) → Frames (raise {A = A} e)
raise-Frames e = record { run = λ c n k s. refl }

pub emit-Frames : (e : Event) → Frames (emit e)
unfolding emit
emit-Frames e = record { run = λ c n k s. refl }

pub transmit-Frames : (bytes : Buffer) → Frames (transmit bytes)
unfolding transmit
transmit-Frames bytes = record { run = λ c n k s. refl }

pub set_state-Frames : (state : State) → Frames (set_state state)
unfolding set_state
set_state-Frames state = record { run = λ c n k s. refl }

pub set_framebuffer-Frames : (fb : Framebuffer) → Frames (set_framebuffer fb)
unfolding set_framebuffer
set_framebuffer-Frames fb = record { run = λ c n k s. refl }

pub option-Frames :
    {A B : Type 0} (o : Option A) (m : M B) (f : A → M B)
    → Frames m
    → ((a : A) → Frames (f a))
    → Frames (elim o [ none ↦ m | some a ↦ f a ])
option-Frames none m f h k = h
option-Frames (some a) m f h k = k a

pub ruleset framing = (
  bind-Frames, if-Frames, when-Frames, return-Frames, raise-Frames, emit-Frames, transmit-Frames,
  set_state-Frames, set_framebuffer-Frames,
)

pub send-Frames : (bytes : Buffer) → Frames (send bytes)
unfolding send
send-Frames bytes =
    get-Frames (λ s. if is_open s.socket then transmit bytes else raise _) (λ c n k s. refl)
      (λ s. search framing)

pub check_screen_size-Frames : (width height : ℕ) → Frames (check_screen_size width height)
unfolding check_screen_size
check_screen_size-Frames width height = search framing

pub choose_security-Frames : (types : List ℕ) → Frames (choose_security types)
unfolding choose_security
choose_security-Frames types =
    get-Frames
      (λ s.
        if any (λ t. t == security_vnc_auth) types && ltb 0 (length s.password)
        then send (security_vnc_auth ∷ []) >> set_state challenge
        else if any (λ t. t == security_none) types
        then send (security_none ∷ []) >> set_state security_result
        else if any (λ t. t == security_vnc_auth) types
        then raise no_password
        else raise (no_usable_security types))
      (λ c n k s. refl) (λ s. search (framing, send-Frames))

pub request_incremental-Frames : Frames request_incremental
unfolding request_incremental
request_incremental-Frames =
    get-Frames
      (λ s. elim s.framebuffer [
        | none ↦ return tt
        | some fb ↦ when (is_open s.socket) (transmit (request_area true fb))
      ])
      (λ c n k s. refl)
      (λ s. option-Frames s.framebuffer _ _ (search framing) (λ fb. search framing))

pub modify-Frames :
    (f : Session → Session)
    → ((c : List Buffer) (n k : ℕ) (s : Session) → f (holding c n k s) ≡ holding c n k (f s))
    → Frames (modify f)
modify-Frames f same = record { run = λ c n k s. ap (λ t. (ok tt, t)) (same c n k s) }

pub settle-Frames : (width height : ℕ) → Frames (settle width height)
unfolding settle
settle-Frames width height =
    get-Frames
      (λ s.
        modify (λ t. record t { settling = false })
        >> when s.settling (emit (resolved width height)))
      (λ c n k s. refl)
      (λ s.
        bind-Frames _ _ (modify-Frames (λ t. record t { settling = false }) (λ c n k t. refl)) (λ _.
          when-Frames s.settling (emit (resolved width height))
            (emit-Frames (resolved width height))))

pub step_version-Frames : Frames step_version
unfolding step_version
step_version-Frames = search (framing, send-Frames)

pub step_security_result-Frames : Frames step_security_result
unfolding step_security_result
step_security_result-Frames = search (framing, send-Frames)

pub step_server_init-Frames : (width height : ℕ) → Frames (step_server_init width height)
unfolding step_server_init
step_server_init-Frames width height =
    search (framing, check_screen_size-Frames, send-Frames, settle-Frames) depth 16

painted-Frames : Frames (modify (λ s. record s { painted = true }))
painted-Frames = modify-Frames (λ s. record s { painted = true }) (λ c n k s. refl)

apply-Frames : (fb : Framebuffer) (r : Rectangle) → Frames (apply fb r)
unfolding apply
apply-Frames fb (raw x y w h bytes) = search (framing, painted-Frames)
apply-Frames fb (copy x y w h src_x src_y) = search (framing, painted-Frames)
apply-Frames fb (resize width height) =
    search (framing, painted-Frames, check_screen_size-Frames) depth 12

require-Frames :
    {A : Type 0} (f : Framebuffer → M A)
    → ((fb : Framebuffer) → Frames (f fb))
    → Frames (λ s. after f (require_framebuffer s))
unfolding require_framebuffer
require-Frames f h =
    bind-Frames
      (λ s.
        (elim s.framebuffer as (λ o. M Framebuffer) [
          | some fb ↦ return fb
          | none ↦ raise no_framebuffer
        ])
          s)
      f
      (get-Frames
        (λ s. elim s.framebuffer as (λ o. M Framebuffer) [
          | some fb ↦ return fb
          | none ↦ raise no_framebuffer
        ])
        (λ c n k s. refl)
        (λ s. option-Frames s.framebuffer _ _ (search framing) (λ fb. search framing)))
      h

last_rectangle-Frames : Frames last_rectangle
unfolding last_rectangle
last_rectangle-Frames = bind-Frames (set_state message) _ (set_state-Frames message) (λ _.
    bind-Frames request_incremental _ request_incremental-Frames (λ _.
      get-Frames
        (λ s. require_framebuffer >>= λ fb. when s.painted (emit (update_event fb.update_seq)))
        (λ c n k s. refl)
        (λ s.
          require-Frames (λ fb. when s.painted (emit (update_event fb.update_seq)))
            (λ fb. search framing))))

finish_rectangle-Frames : Frames finish_rectangle
unfolding finish_rectangle
finish_rectangle-Frames =
    bind-Frames (modify (λ s. record s { pending_rects = s.pending_rects - 1 })) _
      (modify-Frames (λ s. record s { pending_rects = s.pending_rects - 1 }) (λ c n k s. refl))
      (λ _.
        get-Frames (λ s. if s.pending_rects == 0 then last_rectangle else return tt)
          (λ c n k s. refl) (λ s. search (framing, last_rectangle-Frames)))

pub step_rectangle-Frames : (fb : Framebuffer) (r : Rectangle) → Frames (step_rectangle fb r)
unfolding step_rectangle
step_rectangle-Frames fb r =
    bind-Frames (apply fb r) _ (apply-Frames fb r) (λ _. finish_rectangle-Frames)

pub step_message-Frames : (m : ServerMessage) → Frames (step_message m)
unfolding step_message
step_message-Frames (update count) =
    bind-Frames (modify (λ s. record s { pending_rects = count; painted = false })) _
      (modify-Frames (λ s. record s { pending_rects = count; painted = false }) (λ c n k s. refl))
      (λ _.
        if-Frames (count == 0) request_incremental (set_state rectangles) request_incremental-Frames
          (set_state-Frames rectangles))
step_message-Frames bell = search framing
step_message-Frames (cut_text text) = search framing
step_message-Frames colour_map = search framing
