-- ===== src/Core/Poll.antt =====
-- src/core/poll.ts, pollUntil: asking again until the answer settles. The caller's functions may
-- throw, all but `done`. The clock is a function of the number of readings: a round reads it for the
-- deadline test, and once more for the length of the wait. The abort signal is a test: whether a wait
-- that is the k-th and this long is aborted, before or while it runs, and with what reason.
pub mod Ends
use pve_agent.Base.{
  leb, if◌then◌else◌, Outcome, ok, throw, ℕ, zero, suc, ◌+◌, ◌-◌, ◌*◌, min, Bool, true, false,
  Option, none, some, List, [], ◌∷◌, ◌++◌,
}

pub record PollOptions (E T : Type 0) : Type 0 where
  pub done : T → Bool
  pub on_timeout : T → Outcome E T
  pub on_poll : T → Outcome E (Unit {0})
  pub aborted : ℕ → ℕ → Option E
  pub timeout_ms : Option ℕ
  pub initial_delay_ms : Option ℕ
  pub max_delay_ms : Option ℕ

-- What a poll came to: the answer or what was thrown, the waits in their order, the last one perhaps
-- aborted, and the number of probes.
pub record Polled (E T : Type 0) : Type 0 where
  pub answer : Outcome E T
  pub waits : List ℕ
  pub probes : ℕ

-- `value ?? fallback`.
abbrev or_default : Option ℕ → ℕ → ℕ
or_default none fallback = fallback
or_default (some n) fallback = n

-- How a round ends: the poll is over, or it goes on to wait.
pub data Round (E T : Type 0) : Type 0 where
  returns : Outcome E T → Round E T
  waits_on : Round E T

module _ {E T : Type 0} (probe : ℕ → Outcome E T) (now : ℕ → ℕ) (options : PollOptions E T) where
  open options use {done, on_timeout, on_poll, aborted}

  abbrev pub max_delay : ℕ
  max_delay = or_default options.max_delay_ms 2000

  -- The callback's throw is one of the poll.
  unfoldable pub after_callback : (now_ms deadline : ℕ) → T → Outcome E (Unit {0}) → Round E T
  after_callback now_ms deadline value (throw e) = returns (throw e)
  after_callback now_ms deadline value (ok _) =
      if done value
      then returns (ok value)
      else if leb deadline now_ms
      then returns (on_timeout value)
      else waits_on

  -- The statements of a round before its wait.
  unfoldable pub round_of : (now_ms deadline : ℕ) → Outcome E T → Round E T
  unfolding after_callback
  round_of now_ms deadline (throw e) = returns (throw e)
  round_of now_ms deadline (ok value) = after_callback now_ms deadline value (on_poll value)

  -- What the `k`-th round comes to: its end, the reason its wait is aborted for, or the next round.
  unfoldable pub settle :
      ℕ → (waits so_far : List ℕ) → Round E T → Option E → Option (Polled E T) → Option (Polled E T)
  settle k waits so_far (returns answer) cut next =
      some (record { answer = answer; waits = waits; probes = k + 1 })
  settle k waits so_far waits_on none next = next
  settle k waits so_far waits_on (some reason) next =
      some (record { answer = throw reason; waits = so_far; probes = k + 1 })

  -- The `k`-th round, with the deadline and the delay; `fuel` rounds are allowed.
  unfoldable pub poll_from : ℕ → ℕ → (deadline delay : ℕ) → List ℕ → Option (Polled E T)
  unfolding round_of settle
  poll_from zero k deadline delay waits = none
  poll_from (suc fuel) k deadline delay waits =
      let wait = min (min delay max_delay) (deadline - now (2 * k + 2)) in
      let so_far = waits ++ wait ∷ [] in
      let next = poll_from fuel (k + 1) deadline (min (delay * 2) max_delay) so_far in
      settle k waits so_far (round_of (now (2 * k + 1)) deadline (probe k)) (aborted k wait) next

  abbrev pub deadline : ℕ
  deadline = now 0 + or_default options.timeout_ms 600000

  unfoldable pub poll_until : ℕ → Option (Polled E T)
  unfolding poll_from
  poll_until fuel = poll_from fuel 0 deadline (or_default options.initial_delay_ms 200) []
