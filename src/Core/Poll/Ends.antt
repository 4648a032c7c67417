-- ===== src/Core/Poll/Ends.antt =====
-- src/core/poll.ts: when the loop of pollUntil ends, and with what.
use pve_agent.Base.{
  leb, Bool-cases, Outcome, ok, throw, ℕ, zero, suc, ◌+◌, ◌-◌, ◌*◌, ◌≤◌, ◌<◌, min, ◌≡◌, refl, ap,
  ◌∙◌, subst, inl, inr, true, false, Option, none, some, List, [], ◌∷◌, ◌++◌, arith,
}
use pve_agent.Core.Poll.{
  PollOptions, Polled, Round, returns, waits_on, or_default, max_delay, deadline, after_callback,
  round_of, settle, poll_from, poll_until,
}

module _ {E T : Type 0} (probe : ℕ → Outcome E T) (now : ℕ → ℕ) (options : PollOptions E T) where
  open options use {done, on_timeout, on_poll, aborted}

  abbrev end_ms : ℕ
  end_ms = deadline probe now options

  abbrev ceiling : ℕ
  ceiling = max_delay probe now options

  -- The delay doubles up to the ceiling.
  unfoldable pub delay_at : ℕ → ℕ
  delay_at zero = or_default options.initial_delay_ms 200
  delay_at (suc k) = min (delay_at k * 2) ceiling

  -- The k-th wait is no longer than what is left until the deadline.
  abbrev wait_at : ℕ → ℕ
  wait_at k = min (min (delay_at k) ceiling) (end_ms - now (2 * k + 2))

  unfoldable pub waits_before : ℕ → List ℕ
  waits_before zero = []
  waits_before (suc k) = waits_before k ++ wait_at k ∷ []

  -- The answer of the k-th round is not final and came before the deadline.
  abbrev pub IsOpen : ℕ → T → Type 0
  IsOpen k value =
      (probe k ≡ ok value)
      × (on_poll value ≡ ok tt)
      × (done value ≡ false)
      × (now (2 * k + 1) < end_ms)

  -- The k-th round goes on to the next.
  abbrev pub GoesOn : ℕ → Type 0
  GoesOn k = (value : T) × IsOpen k value × (aborted k (wait_at k) ≡ none)

  -- The k-th round is the last: the answer or what is thrown, and the waits so far.
  pub data EndsWith (k : ℕ) : Outcome E T → List ℕ → Type 0 where
    probe_throws : (e : E) → probe k ≡ throw e → EndsWith k (throw e) (waits_before k)
    callback_throws :
        (value : T) (e : E)
        → probe k ≡ ok value
        → on_poll value ≡ throw e
        → EndsWith k (throw e) (waits_before k)
    accepted :
        (value : T)
        → probe k ≡ ok value
        → on_poll value ≡ ok tt
        → done value ≡ true
        → EndsWith k (ok value) (waits_before k)
    late :
        (value : T)
        → probe k ≡ ok value
        → on_poll value ≡ ok tt
        → done value ≡ false
        → end_ms ≤ now (2 * k + 1)
        → EndsWith k (on_timeout value) (waits_before k)
    stopped :
        (value : T) (reason : E)
        → IsOpen k value
        → aborted k (wait_at k) ≡ some reason
        → EndsWith k (throw reason) (waits_before (suc k))

  round_at : ℕ → Round E T
  round_at k = round_of probe now options (now (2 * k + 1)) end_ms (probe k)

  round_at-IsOpen : (k : ℕ) (value : T) → IsOpen k value → round_at k ≡ waits_on
  unfolding round_at round_of after_callback
  round_at-IsOpen k value (asked, told, more, early) =
      let before : leb end_ms (now (2 * k + 1)) ≡ false = ground (arith, early) in
      rw (asked, told, more, before) refl

  -- The loop from its k-th round, with the delay and the waits it has there.
  loop_at : ℕ → ℕ → Option (Polled E T)
  loop_at fuel k = poll_from probe now options fuel k end_ms (delay_at k) (waits_before k)

  abbrev settled : ℕ → Round E T → Option E → Option (Polled E T) → Option (Polled E T)
  settled k = settle probe now options k (waits_before k) (waits_before (suc k))

  loop_at-settled :
      (fuel k : ℕ)
      → loop_at (suc fuel) k ≡ settled k (round_at k) (aborted k (wait_at k)) (loop_at fuel (suc k))
  unfolding loop_at poll_from delay_at waits_before round_at
  loop_at-settled fuel k =
      let next : k + 1 ≡ suc k = omega arith in
      ap
        (λ j.
          settled k (round_at k) (aborted k (wait_at k))
            (poll_from probe now options fuel j end_ms (delay_at (suc k)) (waits_before (suc k))))
        next

  loop_at-GoesOn : (fuel k : ℕ) → GoesOn k → loop_at (suc fuel) k ≡ loop_at fuel (suc k)
  unfolding settle
  loop_at-GoesOn fuel k (value, open_round, going) =
      loop_at-settled fuel k
      ∙ ap (λ r. settled k r (aborted k (wait_at k)) (loop_at fuel (suc k)))
          (round_at-IsOpen k value open_round)
      ∙ ap (λ cut. settled k waits_on cut (loop_at fuel (suc k))) going

  loop_at-returns :
      (fuel k : ℕ) (answer : Outcome E T)
      → round_at k ≡ returns answer
      → loop_at (suc fuel) k
        ≡ some (record { answer = answer; waits = waits_before k; probes = k + 1 })
  unfolding settle
  loop_at-returns fuel k answer e =
      loop_at-settled fuel k
      ∙ ap (λ r. settled k r (aborted k (wait_at k)) (loop_at fuel (suc k))) e

  loop_at-EndsWith :
      (fuel k : ℕ) (answer : Outcome E T) (waits : List ℕ)
      → EndsWith k answer waits
      → loop_at (suc fuel) k ≡ some (record { answer = answer; waits = waits; probes = k + 1 })
  unfolding round_at round_of after_callback settle
  loop_at-EndsWith fuel k _ _ (probe_throws e asked) =
      loop_at-returns fuel k (throw e) (rw asked refl)
  loop_at-EndsWith fuel k _ _ (callback_throws value e asked told) =
      loop_at-returns fuel k (throw e) (rw (asked, told) refl)
  loop_at-EndsWith fuel k _ _ (accepted value asked told final) =
      loop_at-returns fuel k (ok value) (rw (asked, told, final) refl)
  loop_at-EndsWith fuel k _ _ (late value asked told more passed) =
      let after : leb end_ms (now (2 * k + 1)) ≡ true = ground (arith, passed) in
      loop_at-returns fuel k (on_timeout value) (rw (asked, told, more, after) refl)
  loop_at-EndsWith fuel k _ _ (stopped value reason open_round cut) =
      loop_at-settled fuel k
      ∙ ap (λ r. settled k r (aborted k (wait_at k)) (loop_at fuel (suc k)))
          (round_at-IsOpen k value open_round)
      ∙ ap (λ cut. settled k waits_on cut (loop_at fuel (suc k))) cut

  loop_at-first :
      (m k n fuel : ℕ) (answer : Outcome E T) (waits : List ℕ)
      → k + m ≡ n
      → ((j : ℕ) → k ≤ j → j < n → GoesOn j)
      → EndsWith n answer waits
      → m < fuel
      → loop_at fuel k ≡ some (record { answer = answer; waits = waits; probes = n + 1 })
  loop_at-first m k n zero answer waits e earlier last h = absurd (omega arith)
  loop_at-first zero k n (suc fuel) answer waits e earlier last h =
      let same : n ≡ k = omega arith in
      subst
        (λ j.
          loop_at (suc fuel) j ≡ some (record { answer = answer; waits = waits; probes = n + 1 }))
        same (loop_at-EndsWith fuel n answer waits last)
  loop_at-first (suc m) k n (suc fuel) answer waits e earlier last h =
      loop_at-GoesOn fuel k (earlier k (omega arith) (omega arith))
      ∙ loop_at-first m (suc k) n fuel answer waits (omega arith)
          (λ j h1 h2. earlier j (omega arith) h2) last (omega arith)

  -- When the rounds before the n-th go on and the n-th ends, the poll comes to what the n-th ends with
  -- after n + 1 probes: the answer if it is accepted, what on_timeout gives or throws for it when the
  -- clock has reached the deadline, or what the probe, the callback or the signal throws. The waits
  -- double up to the ceiling and are cut at the deadline. Any fuel above n is enough.
  pub poll_until-first :
      (n fuel : ℕ) (answer : Outcome E T) (waits : List ℕ)
      → ((j : ℕ) → j < n → GoesOn j)
      → EndsWith n answer waits
      → n < fuel
      → poll_until probe now options fuel
        ≡ some (record { answer = answer; waits = waits; probes = n + 1 })
  unfolding poll_until loop_at delay_at waits_before
  poll_until-first n fuel answer waits earlier last h =
      loop_at-first n 0 n fuel answer waits (omega arith) (λ j _ k. earlier j k) last h

  callback-late :
      (k : ℕ) (value : T) (told : Outcome E (Unit {0}))
      → end_ms ≤ now (2 * k + 1)
      → (answer : Outcome E T) × (after_callback probe now options
            (now (2 * k + 1))
            end_ms
            value
            told
          ≡ returns answer)
  unfolding after_callback
  callback-late k value (throw e) passed = (throw e, refl)
  callback-late k value (ok _) passed = elim (Bool-cases (done value)) [
    | inl final ↦ (ok value, rw final refl)
    | inr more ↦
        let after : leb end_ms (now (2 * k + 1)) ≡ true = ground (arith, passed) in
        (on_timeout value, rw (more, after) refl)
  ]

  probe-late :
      (k : ℕ) (asked : Outcome E T)
      → end_ms ≤ now (2 * k + 1)
      → (answer : Outcome E T) × (round_of probe now options (now (2 * k + 1)) end_ms asked
          ≡ returns answer)
  unfolding round_of
  probe-late k (throw e) passed = (throw e, refl)
  probe-late k (ok value) passed = callback-late k value (on_poll value) passed

  settled-ends :
      (k : ℕ) (r : Round E T) (cut : Option E) (next : Option (Polled E T)) (n : ℕ)
      → k ≤ n
      → ((polled : Polled E T) × (next ≡ some polled) × (polled.probes ≤ n + 1))
      → (polled : Polled E T) × (settled k r cut next ≡ some polled) × (polled.probes ≤ n + 1)
  unfolding settle
  settled-ends k (returns answer) cut next n small rest = (_, refl, omega arith)
  settled-ends k waits_on none next n small rest = rest
  settled-ends k waits_on (some reason) next n small rest = (_, refl, omega arith)

  loop_at-ends :
      (m k n fuel : ℕ)
      → k + m ≡ n
      → end_ms ≤ now (2 * n + 1)
      → m < fuel
      → (polled : Polled E T) × (loop_at fuel k ≡ some polled) × (polled.probes ≤ n + 1)
  loop_at-ends m k n zero e passed h = absurd (omega arith)
  loop_at-ends zero k n (suc fuel) e passed h =
      let same : n ≡ k = omega arith in
      let (answer, over) =
        probe-late k (probe k) (subst (λ j. end_ms ≤ now (2 * j + 1)) same passed) in
      (
        record { answer = answer; waits = waits_before k; probes = k + 1 },
        loop_at-returns fuel k answer (unfold round_at in over),
        omega arith,
      )
  loop_at-ends (suc m) k n (suc fuel) e passed h =
      let (polled, ends, few) =
        settled-ends k (round_at k) (aborted k (wait_at k)) (loop_at fuel (suc k)) n (omega arith)
          (loop_at-ends m (suc k) n fuel (omega arith) passed (omega arith)) in
      (polled, loop_at-settled fuel k ∙ ends, few)

  -- When the clock has reached the deadline by the n-th round's reading of it, the poll ends, after
  -- n + 1 probes at most. Any fuel above n is enough.
  pub poll_until-ends :
      (n fuel : ℕ)
      → end_ms ≤ now (2 * n + 1)
      → n < fuel
      → (polled : Polled E T) × (poll_until probe now options fuel ≡ some polled)
        × (polled.probes ≤ n + 1)
  unfolding poll_until loop_at delay_at waits_before
  poll_until-ends n fuel passed h = loop_at-ends n 0 n fuel (omega arith) passed h
