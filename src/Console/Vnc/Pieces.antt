-- ===== src/Console/Vnc/Pieces.antt =====
-- src/console/vnc.ts, method receive: the loop on bytes held in one piece.
use pve_agent.Base.{
  ltb, leb, if◌then◌else◌, lt→ltb, Bool-cases, length, length-append, Outcome, ok, throw, Buffer, ℕ,
  zero, suc, ◌+◌, ◌<◌, ◌≡◌, refl, sym, ap, ◌∙◌, inl, inr, Bool, true, false, ◌&&◌, List, [], ◌∷◌,
  ◌++◌, append-nil, append_assoc, arith,
}
use mathlib.Core.List.{flatten}
use pve_agent.Console.Vnc.Session.{
  Session, VncError, fail_session, teardown, reset_receiver, is_some,
}
use pve_agent.Console.Vnc.Receive.{
  step, step_in, consume, receive_loop, receive_rounds, catch_failure,
}
use pve_agent.Console.Vnc.Loop.{IsCounted, length-flatten-kept, receive_loop-enough}
use pve_agent.Console.Vnc.Frames.{holding}
use pve_agent.Console.Vnc.Framing.{Continues, step_in-Continues, Framed, step_in-Framed}

-- The bytes held as one piece.
abbrev pub merged : Session → Session
merged s = holding (flatten s.chunks ∷ []) s.buffered s.needed s

-- What the handler leaves.
abbrev pub finish : Outcome VncError (Unit {0}) × Session → Session
finish r = merged (catch_failure r)

-- The session that holds these bytes.
abbrev pub with_bytes : Buffer → ℕ → Session → Session
with_bytes buf needed s = holding (buf ∷ []) (length buf) needed s

-- More bytes have arrived.
abbrev pub push : Buffer → Session → Session
push chunk s = record s { chunks = s.chunks ++ chunk ∷ []; buffered = s.buffered + length chunk }

pub flatten-one : (buf : Buffer) → flatten (buf ∷ []) ≡ buf
unfolding flatten
flatten-one buf = append-nil buf

pub flatten-push :
    (chunks : List Buffer) (chunk : Buffer)
    → flatten (chunks ++ chunk ∷ []) ≡ flatten chunks ++ chunk
unfolding flatten
flatten-push [] chunk = append-nil chunk
flatten-push (c ∷ chunks) chunk =
    ap (λ t. c ++ t) (flatten-push chunks chunk) ∙ sym (append_assoc c (flatten chunks) chunk)

pub flatten-kept : (rest : Buffer) → flatten (if ltb 0 (length rest) then rest ∷ [] else []) ≡ rest
unfolding flatten
flatten-kept [] = refl
flatten-kept (b ∷ rest) = rw (lt→ltb 0 (length (b ∷ rest)) (omega arith), append-nil) refl

abbrev pub Loop : Type 0
Loop = Session → Outcome VncError (Unit {0}) × Session

-- What a round comes to does not depend on how the bytes were held, nor on the need.
pub consume-Framed :
    (again : Loop) (buf more : Buffer) (c : List Buffer) (k : ℕ) (s : Session)
    (r r' r'' : Outcome VncError ℕ × Session)
    → s.buffered ≡ length buf
    → Continues buf more s r r''
    → Framed c (length buf) k r r'
    → finish (consume again buf r) ≡ finish (consume again buf r')
unfolding consume catch_failure fail_session teardown reset_receiver
consume-Framed again buf more c k s (throw e, t) r' r'' size next framed =
    ap (λ q. finish (consume again buf q)) (sym framed)
consume-Framed again buf more c k s (ok zero, t) r' r'' size (n, same, _, _) framed =
    let counted : t.buffered ≡ length buf = ap (λ x. x.buffered) same ∙ size in
    ap (λ b. merged (record t { chunks = buf ∷ []; buffered = b })) counted
    ∙ ap (λ q. finish (consume again buf q)) (sym framed)
consume-Framed again buf more c k s (ok (suc m), t) r' r'' size next framed =
    ap (λ q. finish (consume again buf q)) (sym framed)

pub round :
    (fuel : ℕ) (s : Session) (b : Bool)
    → (is_some s.socket && leb s.needed s.buffered) ≡ b
    → receive_loop (suc fuel) s ≡ (
        if b
        then consume (receive_loop fuel) (flatten s.chunks) (step (flatten s.chunks) s)
        else (ok tt, s))
unfolding receive_rounds
round fuel s true e = rw (e, receive_rounds) refl
round fuel s false e = rw (e, receive_rounds) refl

abbrev pub goes : ℕ → Buffer → Session → Bool
goes needed buf s = is_some s.socket && leb needed (length buf)

pub round_with :
    (fuel : ℕ) (buf : Buffer) (k : ℕ) (s : Session) (b : Bool)
    → goes k buf s ≡ b
    → receive_loop (suc fuel) (with_bytes buf k s) ≡ (
        if b
        then consume (receive_loop fuel) buf (step buf (with_bytes buf k s))
        else (ok tt, with_bytes buf k s))
round_with fuel buf k s b e =
    round fuel (with_bytes buf k s) b e
    ∙ ap
        (λ held.
          if b
          then consume (receive_loop fuel) held (step held (with_bytes buf k s))
          else (ok tt, with_bytes buf k s))
        (flatten-one buf)

-- A round on bytes however they are held, and with whatever need, is a round on them in one piece.
pub round-pieces :
    (fuel : ℕ) (buf : Buffer) (k : ℕ) (s : Session)
    → s.buffered ≡ length buf
    → finish (consume (receive_loop fuel) buf (step buf s))
      ≡ finish (consume (receive_loop fuel) buf (step buf (with_bytes buf k s)))
unfolding step
round-pieces fuel buf k s counted =
    consume-Framed (receive_loop fuel) buf [] (buf ∷ []) k s (step_in s.state buf s)
      (step_in s.state buf (with_bytes buf k s)) (step_in s.state (buf ++ []) s) counted
      (step_in-Continues s.state buf [] s) (step_in-Framed (buf ∷ []) (length buf) k s.state buf s)

pub merged-with_bytes :
    (s : Session) → IsCounted s → merged s ≡ merged (with_bytes (flatten s.chunks) s.needed s)
merged-with_bytes s counted =
    ap (λ b. holding (flatten s.chunks ∷ []) b s.needed s) counted
    ∙ ap (λ t. holding (t ∷ []) (length (flatten s.chunks)) s.needed s)
        (sym (flatten-one (flatten s.chunks)))

pub loop-pieces :
    (fuel : ℕ) (s : Session)
    → IsCounted s
    → finish (receive_loop (suc fuel) s)
      ≡ finish (receive_loop (suc fuel) (with_bytes (flatten s.chunks) s.needed s))
unfolding catch_failure
loop-pieces fuel s counted =
    let buf = flatten s.chunks in
    let same : (is_some s.socket && leb s.needed s.buffered) ≡ goes s.needed buf s =
      ap (λ b. is_some s.socket && leb s.needed b) counted in
    elim (Bool-cases (goes s.needed buf s)) [
      | inl on ↦
          ap finish (round fuel s true (same ∙ on))
          ∙ round-pieces fuel buf s.needed s counted
          ∙ ap finish (sym (round_with fuel buf s.needed s true on))
      | inr off ↦
          ap finish (round fuel s false (same ∙ off))
          ∙ merged-with_bytes s counted
          ∙ ap finish (sym (round_with fuel buf s.needed s false off))
    ]

-- With a need that the bytes meet, the need does not matter.
pub loop-any_need :
    (fuel : ℕ) (buf : Buffer) (k n : ℕ) (s : Session)
    → goes k buf s ≡ true
    → goes n buf s ≡ true
    → finish (receive_loop (suc fuel) (with_bytes buf k s))
      ≡ finish (receive_loop (suc fuel) (with_bytes buf n s))
loop-any_need fuel buf k n s on on' =
    ap finish (round_with fuel buf k s true on)
    ∙ round-pieces fuel buf n (with_bytes buf k s) refl
    ∙ ap finish (sym (round_with fuel buf n s true on'))

-- The session once `rest` is what is left of the bytes.
abbrev pub consumed : Buffer → Session → Session
consumed rest s = record s {
  chunks = if ltb 0 (length rest) then rest ∷ [] else [];
  buffered = length rest;
  needed = 1;
}

pub loop-push :
    (fuel : ℕ) (more : Buffer) (t : Session)
    → IsCounted t
    → finish (receive_loop (suc fuel) (push more t))
      ≡ finish (receive_loop (suc fuel) (with_bytes (flatten t.chunks ++ more) t.needed t))
loop-push fuel more t counted =
    let joined = flatten-push t.chunks more in
    let size : t.buffered + length more ≡ length (flatten (t.chunks ++ more ∷ [])) =
      omega (arith, counted, length-append (flatten t.chunks) more, ap length joined) in
    loop-pieces fuel (push more t) size
    ∙ ap (λ buf. finish (receive_loop (suc fuel) (with_bytes buf t.needed t))) joined

pub loop-consumed :
    (fuel : ℕ) (rest : Buffer) (t : Session)
    → length rest < fuel
    → finish (receive_loop fuel (consumed rest t))
      ≡ finish (receive_loop (suc fuel) (with_bytes rest 1 t))
loop-consumed fuel rest t enough =
    let counted : IsCounted (consumed rest t) = length-flatten-kept rest in
    let next : fuel + 1 ≡ suc fuel = omega arith in
    ap finish (
      sym (
        receive_loop-enough (λ s. (ok tt, s)) fuel 1 (consumed rest t) counted (omega arith) enough)
      ∙ ap (λ f. receive_loop f (consumed rest t)) next)
    ∙ loop-pieces fuel (consumed rest t) counted
    ∙ ap (λ buf. finish (receive_loop (suc fuel) (with_bytes buf 1 t))) (flatten-kept rest)
