-- ===== src/Console/Vnc/Keeping.antt =====
-- src/console/vnc.ts, class VncSession: the monad of its methods, and the size of the screen.
use pve_agent.Base.{
  ltb, if◌then◌else◌, Bool-cases, Outcome, ok, throw, Buffer, ℕ, ◌*◌, ◌≤◌, inl, inr, Bool, true,
  false, Option, none, some, arith,
}
use pve_agent.Console.Vnc.Surface.{Framebuffer}
use pve_agent.Console.Vnc.Session.{
  Session, VncError, Event, State, M, after, when, return, raise, get_session, modify,
  no_framebuffer, emit, send, transmit, set_state, set_framebuffer, require_framebuffer,
}
use pve_agent.Console.Vnc.Receive.{check_screen_size, max_screen_pixels}
use pve_agent.Console.Vnc.Sizes.{IsSized}

-- There is no screen, or it has four bytes for each pixel and no more pixels than are allowed.
abbrev pub IsFramed : Option Framebuffer → Type 0
IsFramed none = Unit
IsFramed (some fb) = IsSized fb × (fb.width * fb.height ≤ max_screen_pixels)

-- A computation that keeps the screen so.
pub record Keeps {A : Type 0} (m : M A) : Type 0 where
  pub on : (s : Session) → IsFramed s.framebuffer → IsFramed ((m s).1.framebuffer)

pub after-IsFramed :
    {A B : Type 0} (f : A → M B) (r : Outcome VncError A × Session)
    → ((a : A) → Keeps (f a))
    → IsFramed r.1.framebuffer
    → IsFramed ((after f r).1.framebuffer)
after-IsFramed f (ok a, s) k h = (k a).on s h
after-IsFramed f (throw e, s) k h = h

pub bind-Keeps :
    {A B : Type 0} (m : M A) (f : A → M B)
    → Keeps m
    → ((a : A) → Keeps (f a))
    → Keeps (λ s. after f (m s))
bind-Keeps m f h k = record { on = λ s framed. after-IsFramed f (m s) k (h.on s framed) }

pub if-Keeps : {A : Type 0} (b : Bool) (m n : M A) → Keeps m → Keeps n → Keeps (if b then m else n)
if-Keeps true m n h k = h
if-Keeps false m n h k = k

pub when-Keeps : (b : Bool) (m : M (Unit {0})) → Keeps m → Keeps (when b m)
when-Keeps true m h = h
when-Keeps false m h = record { on = λ s k. k }

pub return-Keeps : {A : Type 0} (a : A) → Keeps (return {A = A} a)
return-Keeps a = record { on = λ s k. k }

pub raise-Keeps : {A : Type 0} (e : VncError) → Keeps (raise {A = A} e)
raise-Keeps e = record { on = λ s k. k }

pub get-Keeps : Keeps get_session
get-Keeps = record { on = λ s k. k }

pub emit-Keeps : (e : Event) → Keeps (emit e)
unfolding emit
emit-Keeps e = record { on = λ s k. k }

pub transmit-Keeps : (bytes : Buffer) → Keeps (transmit bytes)
unfolding transmit
transmit-Keeps bytes = record { on = λ s k. k }

pub set_state-Keeps : (state : State) → Keeps (set_state state)
unfolding set_state
set_state-Keeps state = record { on = λ s k. k }

pub ruleset keeping = (
  bind-Keeps, if-Keeps, when-Keeps, return-Keeps, raise-Keeps, get-Keeps, emit-Keeps,
  transmit-Keeps, set_state-Keeps,
)

pub send-Keeps : (bytes : Buffer) → Keeps (send bytes)
unfolding send
send-Keeps bytes = search keeping

pub set_framebuffer-Keeps :
    (fb : Framebuffer)
    → IsSized fb
    → fb.width * fb.height ≤ max_screen_pixels
    → Keeps (set_framebuffer fb)
unfolding set_framebuffer
set_framebuffer-Keeps fb sized small = record { on = λ s h. (sized, small) }

-- What stands behind the test of a screen's size may use that the screen is small enough.
pub checked-Keeps :
    {A : Type 0} (width height : ℕ) (f : Unit {0} → M A)
    → (width * height ≤ max_screen_pixels → (a : Unit {0}) → Keeps (f a))
    → Keeps (λ s. after f (check_screen_size width height s))
unfolding check_screen_size
checked-Keeps width height f h = elim (Bool-cases (ltb max_screen_pixels (width * height))) [
  | inl large ↦ record { on = λ s k. rw large k }
  | inr small ↦ record { on = λ s k. rw small ((h (ground arith) tt).on s k) }
]

-- What reads the screen of the session may use that it is whole and small enough.
pub required-Keeps :
    {A : Type 0} (f : Framebuffer → M A)
    → ((fb : Framebuffer) → IsFramed (some fb) → Keeps (f fb))
    → Keeps (λ s. after f (require_framebuffer s))
unfolding require_framebuffer
required-Keeps {A} f h = record { on = λ s k. go s.framebuffer k s k }
  where
    go :
        (fb : Option Framebuffer)
        → IsFramed fb
        → (s : Session) → IsFramed s.framebuffer
        → IsFramed (
            (after f (
              (elim fb as (λ x. M Framebuffer) [
                | some fb ↦ return fb
                | none ↦ raise no_framebuffer
              ])
                s)).1.framebuffer)
    go none framed s k = k
    go (some fb) framed s k = (h fb framed).on s k

pub modify-Keeps :
    (f : Session → Session)
    → ((s : Session) → IsFramed s.framebuffer → IsFramed ((f s).framebuffer))
    → Keeps (modify f)
modify-Keeps f h = record { on = h }

pub option-Keeps :
    {A B : Type 0} (o : Option A) (m : M B) (f : A → M B)
    → Keeps m
    → ((a : A) → Keeps (f a))
    → Keeps (elim o [ none ↦ m | some a ↦ f a ])
option-Keeps none m f h k = h
option-Keeps (some a) m f h k = k a
