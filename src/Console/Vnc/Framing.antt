-- ===== src/Console/Vnc/Framing.antt =====
-- src/console/vnc.ts, method step: a unit on a buffer and on a longer one, and on other held bytes.
use pve_agent.Base.{
  ltb, ltb→lt, lt→ltb, Bool-cases, length, take, length-append, take-append, Outcome, ok, throw,
  Buffer, ℕ, zero, suc, ◌≤◌, ◌<◌, ◌≡◌, refl, sym, ap, subst, inl, inr, false, Option, none, some,
  List, [], ◌++◌, arith,
}
use pve_agent.Console.Des.{vnc_des_encrypt}
use pve_agent.Console.Rfb.{ParseResult, parsed, need, fail, parse_rectangle}
use pve_agent.Console.Rfb.Framing.{
  Extends, parse_protocol_version-Extends, parse_security_types-Extends,
  parse_security_result-Extends, parse_server_init-Extends, parse_server_message-Extends,
  parse_rectangle-Extends,
}
use pve_agent.Console.Vnc.Surface.{Framebuffer}
use pve_agent.Console.Vnc.Session.{
  State, version, security_types, challenge, security_result, server_init, message, rectangles,
  VncError, Session, M, after, return, raise, require_framebuffer, no_framebuffer, send, set_state,
}
use pve_agent.Console.Vnc.Receive.{
  take_result, unit_step, choose_security, step_version, step_challenge, step_security_result,
  step_server_init, step_message, step_rectangle, step_in,
}
use pve_agent.Console.Vnc.Frames.{
  holding, put_back, Frames, send-Frames, choose_security-Frames, step_version-Frames,
  step_security_result-Frames, step_server_init-Frames, step_message-Frames, step_rectangle-Frames,
}

-- How the step on `buf ++ more` follows from the step on `buf`, if that does not throw: an incomplete
-- unit records its need, and a complete one is the same.
abbrev pub Continues :
    Buffer → Buffer → Session → Outcome VncError ℕ × Session → Outcome VncError ℕ × Session → Type 0
Continues buf more s (throw e, t) r' = Unit
Continues buf more s (ok zero, t) r' =
    (n : ℕ) × (t ≡ holding s.chunks s.buffered n s)
    × (length buf < n)
    × (length (buf ++ more) < n → r' ≡ (ok 0, t))
Continues buf more s (ok (suc m), t) r' = (suc m ≤ length buf) × (r' ≡ (ok (suc m), t))

done-Continues :
    (buf more : Buffer) (s : Session) (n : ℕ) (r : Outcome VncError (Unit {0}) × Session)
    → 0 < n
    → n ≤ length buf
    → Continues buf more s (after (λ _. return n) r) (after (λ _. return n) r)
done-Continues buf more s zero r h k = absurd (omega arith)
done-Continues buf more s (suc n) (ok u, t) h k = (k, refl)
done-Continues buf more s (suc n) (throw e, t) h k = tt

unit_step-Continues :
    {A : Type 0} (buf more : Buffer) (p p' : ParseResult A) (act : A → M (Unit {0})) (s : Session)
    → Extends buf more p p'
    → Continues buf more s (unit_step p act s) (unit_step p' act s)
unfolding take_result
unit_step-Continues buf more (parsed v n) p' act s (some_bytes, fits, e) =
    subst (λ q. Continues buf more s (unit_step (parsed v n) act s) (unit_step q act s)) (sym e)
      (done-Continues buf more s n (act v s) some_bytes fits)
unit_step-Continues buf more (need n) p' act s (short, same) =
    elim (Bool-cases (ltb s.max_message_bytes n)) [
      | inl long ↦ rw long tt
      | inr small ↦ rw small (n, refl, short, λ k. rw (same k, small) refl)
    ]
unit_step-Continues buf more (fail e) p' act s same = tt

answered-Continues :
    (buf more : Buffer) (s : Session) (r : Outcome VncError (Unit {0}) × Session)
    → 16 ≤ length buf
    → Continues buf more s
        (after (λ _ t. after (λ _. return 16) (set_state security_result t)) r)
        (after (λ _ t. after (λ _. return 16) (set_state security_result t)) r)
unfolding set_state
answered-Continues buf more s (ok u, t) h = (h, refl)
answered-Continues buf more s (throw e, t) h = tt

step_challenge-Continues :
    (buf more : Buffer) (s : Session)
    → Continues buf more s (step_challenge buf s) (step_challenge (buf ++ more) s)
unfolding step_challenge
step_challenge-Continues buf more s = elim (Bool-cases (ltb (length buf) 16)) [
  | inl short ↦ rw short (16, refl, ltb→lt _ _ short, λ k. rw (lt→ltb _ _ k) refl)
  | inr long ↦
      let fits : 16 ≤ length buf = ground arith in
      let still : ltb (length (buf ++ more)) 16 ≡ false = ground (arith, length-append buf more) in
      rw (long, still, take-append 16 buf more fits)
        (answered-Continues buf more s (send (vnc_des_encrypt s.password (take 16 buf)) s) fits)
]

pub step_in-Continues :
    (state : State) (buf more : Buffer) (s : Session)
    → Continues buf more s (step_in state buf s) (step_in state (buf ++ more) s)
unfolding step_in require_framebuffer
step_in-Continues version buf more s =
    unit_step-Continues buf more _ _ (λ _. step_version) s (parse_protocol_version-Extends buf more)
step_in-Continues security_types buf more s =
    unit_step-Continues buf more _ _ choose_security s (parse_security_types-Extends buf more)
step_in-Continues challenge buf more s = step_challenge-Continues buf more s
step_in-Continues security_result buf more s =
    unit_step-Continues buf more _ _ (λ _. step_security_result) s
      (parse_security_result-Extends buf more)
step_in-Continues server_init buf more s =
    unit_step-Continues buf more _ _ (λ init. step_server_init init.width init.height) s
      (parse_server_init-Extends buf more)
step_in-Continues message buf more s =
    unit_step-Continues buf more _ _ step_message s (parse_server_message-Extends buf more)
step_in-Continues rectangles buf more s = on_screen s.framebuffer
  where
    on_screen :
        (o : Option Framebuffer)
        → Continues buf more s
            (after
              (λ fb. unit_step (parse_rectangle buf fb.width fb.height) (step_rectangle fb))
              ((elim o as (λ x. M Framebuffer) [
                | some fb ↦ return fb
                | none ↦ raise no_framebuffer
              ])
                s))
            (after
              (λ fb.
                unit_step (parse_rectangle (buf ++ more) fb.width fb.height) (step_rectangle fb))
              ((elim o as (λ x. M Framebuffer) [
                | some fb ↦ return fb
                | none ↦ raise no_framebuffer
              ])
                s))
    on_screen none = tt
    on_screen (some fb) =
        unit_step-Continues buf more _ _ (step_rectangle fb) s
          (parse_rectangle-Extends buf more fb.width fb.height)

-- How a step on other held bytes, and another need, follows.
abbrev pub Framed :
    List Buffer → ℕ → ℕ → Outcome VncError ℕ × Session → Outcome VncError ℕ × Session → Type 0
Framed c n k (throw e, t) r' = r' ≡ (throw e, holding c n k t)
Framed c n k (ok zero, t) r' = r' ≡ (ok 0, holding c n t.needed t)
Framed c n k (ok (suc m), t) r' = r' ≡ (ok (suc m), holding c n k t)

done-Framed :
    (c : List Buffer) (b k n : ℕ) (r r' : Outcome VncError (Unit {0}) × Session)
    → 0 < n
    → r' ≡ put_back c b k r
    → Framed c b k (after (λ _. return n) r) (after (λ _. return n) r')
done-Framed c b k zero r r' h e = absurd (omega arith)
done-Framed c b k (suc n) (ok u, t) r' h e = ap (after (λ _. return (suc n))) e
done-Framed c b k (suc n) (throw x, t) r' h e = ap (after (λ _. return (suc n))) e

abbrev IsPositive : {A : Type 0} → ParseResult A → Type 0
IsPositive (parsed v n) = 0 < n
IsPositive _ = Unit

Extends-IsPositive :
    {A : Type 0} (buf more : Buffer) (p p' : ParseResult A) → Extends buf more p p' → IsPositive p
Extends-IsPositive buf more (parsed v n) p' h = h.0
Extends-IsPositive buf more (need n) p' h = tt
Extends-IsPositive buf more (fail e) p' h = tt

unit_step-Framed :
    {A : Type 0} (c : List Buffer) (b k : ℕ) (p : ParseResult A) (act : A → M (Unit {0}))
    (s : Session)
    → IsPositive p
    → ((a : A) → Frames (act a))
    → Framed c b k (unit_step p act s) (unit_step p act (holding c b k s))
unfolding take_result
unit_step-Framed c b k (parsed v n) act s positive h =
    done-Framed c b k n (act v s) (act v (holding c b k s)) positive ((h v).run c b k s)
unit_step-Framed c b k (need n) act s positive h = elim (Bool-cases (ltb s.max_message_bytes n)) [
  | inl long ↦ rw long refl
  | inr small ↦ rw small refl
]
unit_step-Framed c b k (fail e) act s positive h = refl

answered-Framed :
    (c : List Buffer) (b k : ℕ) (r r' : Outcome VncError (Unit {0}) × Session)
    → r' ≡ put_back c b k r
    → Framed c b k
        (after (λ _ t. after (λ _. return 16) (set_state security_result t)) r)
        (after (λ _ t. after (λ _. return 16) (set_state security_result t)) r')
unfolding set_state
answered-Framed c b k (ok u, t) r' e =
    ap (after (λ _ t. after (λ _. return 16) (set_state security_result t))) e
answered-Framed c b k (throw x, t) r' e =
    ap (after (λ _ t. after (λ _. return 16) (set_state security_result t))) e

step_challenge-Framed :
    (c : List Buffer) (b k : ℕ) (buf : Buffer) (s : Session)
    → Framed c b k (step_challenge buf s) (step_challenge buf (holding c b k s))
unfolding step_challenge
step_challenge-Framed c b k buf s = elim (Bool-cases (ltb (length buf) 16)) [
  | inl short ↦ rw short refl
  | inr long ↦
      let bytes = vnc_des_encrypt s.password (take 16 buf) in
      rw long (
        answered-Framed c b k (send bytes s) (send bytes (holding c b k s))
          ((send-Frames bytes).run c b k s))
]

pub step_in-Framed :
    (c : List Buffer) (b k : ℕ) (state : State) (buf : Buffer) (s : Session)
    → Framed c b k (step_in state buf s) (step_in state buf (holding c b k s))
unfolding step_in require_framebuffer
step_in-Framed c b k version buf s =
    unit_step-Framed c b k _ (λ _. step_version) s
      (Extends-IsPositive buf [] _ _ (parse_protocol_version-Extends buf []))
      (λ _. step_version-Frames)
step_in-Framed c b k security_types buf s =
    unit_step-Framed c b k _ choose_security s
      (Extends-IsPositive buf [] _ _ (parse_security_types-Extends buf [])) choose_security-Frames
step_in-Framed c b k challenge buf s = step_challenge-Framed c b k buf s
step_in-Framed c b k security_result buf s =
    unit_step-Framed c b k _ (λ _. step_security_result) s
      (Extends-IsPositive buf [] _ _ (parse_security_result-Extends buf []))
      (λ _. step_security_result-Frames)
step_in-Framed c b k server_init buf s =
    unit_step-Framed c b k _ (λ init. step_server_init init.width init.height) s
      (Extends-IsPositive buf [] _ _ (parse_server_init-Extends buf []))
      (λ init. step_server_init-Frames init.width init.height)
step_in-Framed c b k message buf s =
    unit_step-Framed c b k _ step_message s
      (Extends-IsPositive buf [] _ _ (parse_server_message-Extends buf [])) step_message-Frames
step_in-Framed c b k rectangles buf s = on_screen s.framebuffer
  where
    on_screen :
        (o : Option Framebuffer)
        → Framed c b k
            (after
              (λ fb. unit_step (parse_rectangle buf fb.width fb.height) (step_rectangle fb))
              ((elim o as (λ x. M Framebuffer) [
                | some fb ↦ return fb
                | none ↦ raise no_framebuffer
              ])
                s))
            (after
              (λ fb. unit_step (parse_rectangle buf fb.width fb.height) (step_rectangle fb))
              ((elim o as (λ x. M Framebuffer) [
                | some fb ↦ return fb
                | none ↦ raise no_framebuffer
              ])
                (holding c b k s)))
    on_screen none = refl
    on_screen (some fb) =
        unit_step-Framed c b k _ (step_rectangle fb) s
          (Extends-IsPositive buf [] _ _ (parse_rectangle-Extends buf [] fb.width fb.height))
          (step_rectangle-Frames fb)
