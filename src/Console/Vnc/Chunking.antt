-- ===== src/Console/Vnc/Chunking.antt =====
-- src/console/vnc.ts, method receive: the pieces in which bytes arrive.
use pve_agent.Base.{
  leb, Bool-cases, length, drop, length-append, length-drop, drop-append, Outcome, ok, throw,
  Buffer, ℕ, zero, suc, ◌+◌, ◌-◌, ◌≤◌, ◌<◌, ◌≡◌, sym, ap, ◌∙◌, subst, inl, inr, true, false, ◌&&◌,
  [], ◌∷◌, ◌++◌, append_assoc, arith,
}
use mathlib.Core.List.{flatten}
use pve_agent.Console.Vnc.Session.{Session, VncError, is_some}
use pve_agent.Console.Vnc.Receive.{step, step_in, consume, receive_loop, receive, catch_failure}
use pve_agent.Console.Vnc.Loop.{IsCounted, length-flatten-kept, receive_loop-enough}
use pve_agent.Console.Vnc.Frames.{holding}
use pve_agent.Console.Vnc.Framing.{Continues, step_in-Continues, Framed, step_in-Framed}
use pve_agent.Console.Vnc.Pieces.{
  merged, finish, with_bytes, push, flatten-one, flatten-push, flatten-kept, round, goes,
  round_with, loop-any_need, consumed, loop-push, loop-consumed,
}

module _ (more : Buffer) (fuel : ℕ) (t : Session) where
  -- The bytes that follow, on what the first ones left, and on all of the bytes at once.
  abbrev Joins : Session → Type 0
  Joins s =
      finish (receive_loop (suc fuel) (push more t))
      ≡ finish (receive_loop (suc fuel) (with_bytes (flatten s.chunks ++ more) s.needed s))

  short-Joins :
      (buf : Buffer) (n k : ℕ) (s t' : Session)
      → goes k (buf ++ more) s ≡ true
      → goes n (buf ++ more) s ≡ false
      → t' ≡ holding s.chunks s.buffered n s
      → step_in s.state (buf ++ more) s ≡ (ok 0, t')
      → receive_loop (suc fuel) (with_bytes (buf ++ more) n s)
        ≡ receive_loop (suc fuel) (with_bytes (buf ++ more) k s)
  unfolding step consume
  short-Joins buf n k s t' on off same e =
      let whole = buf ++ more in
      let framed =
        subst
          (λ r.
            Framed (whole ∷ []) (length whole) k r (step_in s.state whole (with_bytes whole k s)))
          e (step_in-Framed (whole ∷ []) (length whole) k s.state whole s) in
      let stepped : step_in s.state whole (with_bytes whole k s) ≡ (ok 0, with_bytes whole n s) =
        framed ∙ ap (λ x. (ok 0, holding (whole ∷ []) (length whole) x.needed x)) same in
      round_with fuel whole n s false off
      ∙ ap (consume (receive_loop fuel) whole) (sym stepped)
      ∙ sym (round_with fuel whole k s true on)

  full-Joins :
      (buf : Buffer) (m k : ℕ) (s t' : Session)
      → goes k (buf ++ more) s ≡ true
      → suc m ≤ length buf
      → length (buf ++ more) < suc fuel
      → step_in s.state (buf ++ more) s ≡ (ok (suc m), t')
      → finish (receive_loop (suc fuel) (with_bytes (drop (suc m) buf ++ more) 1 t'))
        ≡ finish (receive_loop (suc fuel) (with_bytes (buf ++ more) k s))
  unfolding step consume
  full-Joins buf m k s t' on fits enough e =
      let whole = buf ++ more in
      let framed =
        subst
          (λ r.
            Framed (whole ∷ []) (length whole) k r (step_in s.state whole (with_bytes whole k s)))
          e (step_in-Framed (whole ∷ []) (length whole) k s.state whole s) in
      let left = drop-append (suc m) buf more fits in
      let few : length (drop (suc m) whole) < fuel =
        omega (arith, length-drop (suc m) whole, length-append buf more) in
      ap (λ rest. finish (receive_loop (suc fuel) (with_bytes rest 1 t'))) (sym left)
      ∙ sym (loop-consumed fuel (drop (suc m) whole) t' few)
      ∙ ap (λ r. finish (consume (receive_loop fuel) whole r)) (sym framed)
      ∙ ap finish (sym (round_with fuel whole k s true on))

  goes-longer :
      (buf : Buffer) (s : Session)
      → s.buffered ≡ length buf
      → (is_some s.socket && leb s.needed s.buffered) ≡ true
      → goes s.needed (buf ++ more) s ≡ true
  goes-longer buf s counted on = ground (arith, counted, on, length-append buf more)

  abbrev Rests : Session → Type 0
  Rests s = Joins s × IsCounted t × (1 ≤ t.needed) × (t.buffered ≤ s.buffered)

  -- A round that did not throw, and what the loop came to after it.
  round-Rests :
      (n : ℕ) (s : Session) (r : Outcome VncError ℕ × Session)
      → IsCounted s
      → s.buffered < suc n
      → s.buffered + length more < suc fuel
      → (is_some s.socket && leb s.needed s.buffered) ≡ true
      → Continues (flatten s.chunks) more s r (step_in s.state (flatten s.chunks ++ more) s)
      → consume (receive_loop n) (flatten s.chunks) r ≡ (ok tt, t)
      → ((u : Session)
          → IsCounted u
          → 1 ≤ u.needed
          → u.buffered < n
          → u.buffered + length more < suc fuel
          → receive_loop n u ≡ (ok tt, t)
          → Rests u)
      → Rests s
  unfolding consume
  round-Rests n s (throw e, t') counted small enough on next ends again =
      absurd (ground (arith, ends))
  round-Rests n s (ok zero, t') counted small enough on (k, same, short, need_still) ends again =
      let buf = flatten s.chunks in
      let left : record t' { chunks = buf ∷ [] } ≡ t = ap (λ x. x.1) ends in
      let as_held : t ≡ holding (buf ∷ []) s.buffered k s =
        sym left ∙ ap {A = Session} {B = Session} (λ x. record x { chunks = buf ∷ [] }) same in
      let on_all = goes-longer buf s counted on in
      let held : IsCounted t =
        subst IsCounted (sym as_held) (counted ∙ ap length (sym (flatten-one buf))) in
      let pushed : finish (receive_loop (suc fuel) (push more t))
          ≡ finish (receive_loop (suc fuel) (with_bytes (buf ++ more) k s)) =
        loop-push fuel more t held
        ∙ ap
            (λ x.
              finish (receive_loop (suc fuel) (with_bytes (flatten x.chunks ++ more) x.needed x)))
            as_held
        ∙ ap (λ b. finish (receive_loop (suc fuel) (with_bytes (b ++ more) k s)))
            (flatten-one buf) in
      let joins : Joins s = elim (Bool-cases (goes k (buf ++ more) s)) [
        | inl met ↦ pushed ∙ loop-any_need fuel (buf ++ more) k s.needed s met on_all
        | inr unmet ↦
            let still_short : length (buf ++ more) < k = ground (arith, unmet, on) in
            pushed
            ∙ ap finish (short-Joins buf k s.needed s t' on_all unmet same (need_still still_short))
      ] in
      (
        joins,
        held,
        subst (λ x. 1 ≤ x.needed) (sym as_held) (omega arith),
        subst (λ x. x.buffered ≤ s.buffered) (sym as_held) (omega arith),
      )
  round-Rests n s (ok (suc m), t') counted small enough on (fits, same) ends again =
      let buf = flatten s.chunks in
      let rest = drop (suc m) buf in
      let left = length-drop (suc m) buf in
      let (joins, held, needs, fewer) =
        again (consumed rest t') (length-flatten-kept rest) (omega arith)
          (omega (arith, left, counted)) (omega (arith, left, counted)) ends in
      let one_piece = flatten-kept rest in
      let all_small : length (buf ++ more) < suc fuel =
        omega (arith, length-append buf more, counted) in
      (
        joins
            ∙ ap (λ b. finish (receive_loop (suc fuel) (with_bytes (b ++ more) 1 t'))) one_piece
            ∙ full-Joins buf m s.needed s t' (goes-longer buf s counted on) fits all_small same,
        held,
        needs,
        omega (arith, left, counted, fewer),
      )

  loop-Rests :
      (n : ℕ) (s : Session)
      → IsCounted s
      → 1 ≤ s.needed
      → s.buffered < n
      → s.buffered + length more < suc fuel
      → receive_loop n s ≡ (ok tt, t)
      → Rests s
  unfolding step
  loop-Rests zero s counted needs small enough e = absurd (omega arith)
  loop-Rests (suc n) s counted needs small enough e =
      elim (Bool-cases (is_some s.socket && leb s.needed s.buffered)) [
        | inl on ↦
            round-Rests n s (step_in s.state (flatten s.chunks) s) counted small enough on
              (step_in-Continues s.state (flatten s.chunks) more s) (sym (round n s true on) ∙ e)
              (loop-Rests n)
        | inr off ↦
            let same : s ≡ t = ap (λ x. x.1) (sym (round n s false off) ∙ e) in
            subst
              (λ x.
                (finish (receive_loop (suc fuel) (push more x))
                  ≡ finish
                      (receive_loop (suc fuel) (with_bytes (flatten s.chunks ++ more) s.needed s)))
                × IsCounted x
                × (1 ≤ x.needed)
                × (x.buffered ≤ s.buffered))
              same (loop-push fuel more s counted, counted, needs, omega arith)
      ]

push-IsCounted : (chunk : Buffer) (s : Session) → IsCounted s → IsCounted (push chunk s)
push-IsCounted chunk s counted = omega (
  arith,
  counted,
  length-append (flatten s.chunks) chunk,
  ap length (flatten-push s.chunks chunk),
)

-- More rounds than there are bytes change nothing.
loop-more :
    (few many : ℕ) (s : Session)
    → IsCounted s
    → 1 ≤ s.needed
    → s.buffered < few
    → few ≤ many
    → receive_loop few s ≡ receive_loop many s
loop-more few many s counted needs small h =
    let e : few + (many - few) ≡ many = omega arith in
    sym (receive_loop-enough (λ s. (ok tt, s)) few (many - few) s counted needs small)
    ∙ ap (λ n. receive_loop n s) e

-- The pieces in which bytes arrive do not matter: when the first piece raises no error, the session
-- after the second piece is the one that both in one piece lead to, but for how the bytes that wait are
-- cut. It starts from a session whose count of held bytes is right and that needs one byte at least.
pub receive-pieces :
    (a b : Buffer) (s t : Session)
    → IsCounted s
    → 1 ≤ s.needed
    → receive_loop (suc ((push a s).buffered)) (push a s) ≡ (ok tt, t)
    → merged (receive b (receive a s)) ≡ merged (receive (a ++ b) s)
unfolding receive catch_failure
receive-pieces a b s t counted needs e =
    let fuel = s.buffered + length a + length b in
    let first = push-IsCounted a s counted in
    let (joins, held, needs_more, fewer) =
      loop-Rests b fuel t (suc ((push a s).buffered)) (push a s) first needs (omega arith)
        (omega arith) e in
    let received : receive a s ≡ t = ap catch_failure e in
    let size : s.buffered + length (a ++ b) ≡ fuel = omega (arith, length-append a b) in
    let bytes : flatten (s.chunks ++ a ∷ []) ++ b ≡ flatten s.chunks ++ (a ++ b) =
      ap (λ x. x ++ b) (flatten-push s.chunks a) ∙ append_assoc (flatten s.chunks) a b in
    ap (λ x. merged (receive b x)) received
    ∙ ap finish (
        loop-more (suc (t.buffered + length b)) (suc fuel) (push b t) (push-IsCounted b t held)
          needs_more (omega arith) (omega arith))
    ∙ joins
    ∙ ap (λ x. finish (receive_loop (suc fuel) (with_bytes x s.needed s))) bytes
    ∙ sym (loop-push fuel (a ++ b) s counted)
    ∙ ap (λ n. finish (receive_loop (suc n) (push (a ++ b) s))) (sym size)
