-- ===== src/Base/Exec.antt =====
-- Methods that change a state and may throw: what was changed before a throw stays changed.
use mathlib.Core.Path.{◌≡◌, refl}
use mathlib.Core.Bool.{Bool, true, false}
use pve_agent.Base.Tests.{if◌then◌else◌}
use pve_agent.Base.Throws.{Outcome, ok, throw}

abbrev pub Exec : Type 0 → Type 0 → Type 0 → Type 0
Exec E S A = S → Outcome E A × S

module _ {E S : Type 0} where
  abbrev pub resume : {A B : Type 0} → (A → Exec E S B) → Outcome E A × S → Outcome E B × S
  resume next (ok a, s) = next a s
  resume next (throw e, s) = (throw e, s)

  infixl 5 ◌>>=◌
  abbrev pub ◌>>=◌ : {A B : Type 0} → Exec E S A → (A → Exec E S B) → Exec E S B
  start >>= next = λ state. resume next (start state)

  infixl 5 ◌>>◌
  abbrev pub ◌>>◌ : {B : Type 0} → Exec E S (Unit {0}) → Exec E S B → Exec E S B
  start >> next = start >>= λ _. next

  abbrev pub give : {A : Type 0} → A → Exec E S A
  give a state = (ok a, state)

  abbrev pub fail_with : {A : Type 0} → E → Exec E S A
  fail_with e state = (throw e, state)

  -- A computation that only reads the state, and may throw.
  abbrev pub lift : {A : Type 0} → Outcome E A → Exec E S A
  lift outcome state = (outcome, state)

  abbrev pub ask : {A : Type 0} → (S → A) → Exec E S A
  ask f state = (ok (f state), state)

  abbrev pub change : (S → S) → Exec E S (Unit {0})
  change f state = (ok tt, f state)

  -- `P` holds after the computation when it held before, whether it returned or threw.
  pub record Preserves {A : Type 0} (P : S → Type 0) (m : Exec E S A) : Type 0 where
    pub run : (state : S) → P state → P ((m state).1)

  pub resume-Preserves :
      {A B : Type 0} (P : S → Type 0) (next : A → Exec E S B) (r : Outcome E A × S)
      → ((a : A) → r.0 ≡ ok a → Preserves P (next a))
      → P r.1
      → P ((resume next r).1)
  resume-Preserves P next (ok a, s) k h = (k a refl).run s h
  resume-Preserves P next (throw e, s) k h = h

  pub bind-Preserves :
      {A B : Type 0} (P : S → Type 0) (m : Exec E S A) (next : A → Exec E S B)
      → Preserves P m
      → ((a : A) → Preserves P (next a))
      → Preserves P (λ state. resume next (m state))
  bind-Preserves P m next h k = record {
    run = λ s holds. resume-Preserves P next (m s) (λ a _. k a) (h.run s holds);
  }

  give-resume :
      {A B C : Type 0} (P : S → Type 0) (f : A → B) (next : B → Exec E S C) (r : Outcome E A × S)
      → ((a : A) → Preserves P (next (f a)))
      → P r.1
      → P ((resume next (resume (λ a. give (f a)) r)).1)
  give-resume P f next (ok a, s) k h = (k a).run s h
  give-resume P f next (throw e, s) k h = h

  -- What follows a result that was put together by `f` may use how.
  pub give-bind-Preserves :
      {A B C : Type 0} (P : S → Type 0) (m : Exec E S A) (f : A → B) (next : B → Exec E S C)
      → Preserves P m
      → ((a : A) → Preserves P (next (f a)))
      → Preserves P (λ state. resume next (resume (λ a. give (f a)) (m state)))
  give-bind-Preserves P m f next h k = record {
    run = λ s holds. give-resume P f next (m s) k (h.run s holds);
  }

  -- What follows a value that was computed without the state may use its equation.
  pub lift-bind-Preserves :
      {A B : Type 0} (P : S → Type 0) (r : Outcome E A) (next : A → Exec E S B)
      → ((a : A) → r ≡ ok a → Preserves P (next a))
      → Preserves P (λ state. resume next (r, state))
  lift-bind-Preserves P (ok a) next k = k a refl
  lift-bind-Preserves P (throw e) next k = record { run = λ s h. h }

  pub if-Preserves :
      {A : Type 0} (P : S → Type 0) (b : Bool) (m n : Exec E S A)
      → Preserves P m
      → Preserves P n
      → Preserves P (if b then m else n)
  if-Preserves P true m n h k = h
  if-Preserves P false m n h k = k

  pub give-Preserves : {A : Type 0} (P : S → Type 0) (a : A) → Preserves P (give {A = A} a)
  give-Preserves P a = record { run = λ s h. h }

  pub fail_with-Preserves :
      {A : Type 0} (P : S → Type 0) (e : E) → Preserves P (fail_with {A = A} e)
  fail_with-Preserves P e = record { run = λ s h. h }

  pub lift-Preserves : {A : Type 0} (P : S → Type 0) (r : Outcome E A) → Preserves P (lift r)
  lift-Preserves P r = record { run = λ s h. h }

  pub ask-Preserves : {A : Type 0} (P : S → Type 0) (f : S → A) → Preserves P (ask f)
  ask-Preserves P f = record { run = λ s h. h }

  pub change-Preserves :
      (P : S → Type 0) (f : S → S) → ((s : S) → P s → P (f s)) → Preserves P (change f)
  change-Preserves P f h = record { run = h }

pub ruleset preserving = (
  bind-Preserves, if-Preserves, give-Preserves, fail_with-Preserves, lift-Preserves, ask-Preserves,
)
