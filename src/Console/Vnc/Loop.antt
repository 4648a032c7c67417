-- ===== src/Console/Vnc/Loop.antt =====
-- src/console/vnc.ts, method receive: the rounds of its loop.
use pve_agent.Base.{
  ltb, leb, if◌then◌else◌, lt→ltb, leb→le, Bool-cases, length, drop, length-drop, Outcome, ok,
  throw, Buffer, ℕ, zero, suc, ◌+◌, ◌≤◌, ◌<◌, ◌≡◌, refl, subst, inl, inr, Bool, true, false, ◌&&◌,
  [], ◌∷◌, append-nil, arith,
}
use pve_agent.Console.Vnc.Session.{Session, VncError, is_some}
use pve_agent.Console.Vnc.Receive.{step, consume, receive_loop, receive_rounds}
use mathlib.Core.List.{flatten}

-- The bytes counted are the bytes held.
abbrev pub IsCounted : Session → Type 0
IsCounted s = s.buffered ≡ length (flatten s.chunks)

and_right : (a b : Bool) → (a && b) ≡ true → b ≡ true
and_right true b h = h
and_right false b h = absurd (ground arith)

pub length-flatten-kept :
    (rest : Buffer) → length rest ≡ length (flatten (if ltb 0 (length rest) then rest ∷ [] else []))
unfolding flatten
length-flatten-kept [] = refl
length-flatten-kept (b ∷ rest) = rw (lt→ltb 0 (length (b ∷ rest)) (omega arith), append-nil) refl

-- What the loop goes on with depends only on sessions that hold fewer bytes.
consume-agree :
    (f g : Session → Outcome VncError (Unit {0}) × Session)
    → (buf : Buffer) (r : Outcome VncError ℕ × Session) → 0 < length buf
    → ((t : Session) → IsCounted t → 1 ≤ t.needed → t.buffered < length buf → f t ≡ g t)
    → consume f buf r ≡ consume g buf r
unfolding consume
consume-agree f g buf (throw error, s) h agree = refl
consume-agree f g buf (ok zero, s) h agree = refl
consume-agree f g buf (ok (suc n), s) h agree =
    agree _ (length-flatten-kept (drop (suc n) buf)) (omega arith)
      (omega (arith, length-drop (suc n) buf))

receive_loop-agree :
    (cut_off : Session → Outcome VncError (Unit {0}) × Session) (k n : ℕ) (s : Session)
    → IsCounted s
    → 1 ≤ s.needed
    → ((t : Session)
        → IsCounted t
        → 1 ≤ t.needed
        → t.buffered < s.buffered
        → receive_rounds cut_off k t ≡ receive_loop n t)
    → receive_rounds cut_off (suc k) s ≡ receive_loop (suc n) s
unfolding receive_rounds
receive_loop-agree cut_off k n s counted needs agree =
    elim (Bool-cases (is_some s.socket && leb s.needed s.buffered)) [
      | inr ends ↦ rw (ends, receive_rounds) refl
      | inl goes ↦
          let some_bytes : s.needed ≤ s.buffered =
            leb→le _ _ (and_right (is_some s.socket) _ goes) in
          rw (goes, receive_rounds)
            (consume-agree (receive_rounds cut_off k) (receive_loop n) (flatten s.chunks)
              (step (flatten s.chunks) s) (omega arith) (λ t c d l. agree t c d (omega arith)))
    ]

-- On a session whose count of held bytes is right and that needs at least one byte, the loop ends by
-- itself: with any number of rounds above that count, the answer is the same whatever is put for a run
-- that is cut off, so no run is.
pub receive_loop-enough :
    (cut_off : Session → Outcome VncError (Unit {0}) × Session) (fuel extra : ℕ) (s : Session)
    → IsCounted s
    → 1 ≤ s.needed
    → s.buffered < fuel
    → receive_rounds cut_off (fuel + extra) s ≡ receive_loop fuel s
receive_loop-enough cut_off zero extra s counted needs h = absurd (omega arith)
receive_loop-enough cut_off (suc fuel) extra s counted needs h =
    subst (λ k. receive_rounds cut_off k s ≡ receive_loop (suc fuel) s) more
      (receive_loop-agree cut_off (fuel + extra) fuel s counted needs
        (λ t c d l. receive_loop-enough cut_off fuel extra t c d (omega arith)))
  where
    more : suc (fuel + extra) ≡ suc fuel + extra
    more = omega arith
