-- ===== src/Shell/Policy/Decides.antt =====
-- src/shell/policy.ts, CommandPolicy.explain: its decision as one condition.
use pve_agent.Base.{
  Bool-cases, Option-cases, any, find, Text, ◌≡◌, refl, ◌⊎◌, inl, inr, Bool, true, false, not, ◌&&◌,
  ◌||◌, Option, none, some, List, [], ◌∷◌, map,
}
use pve_agent.Shell.Policy.Patterns.{destructive_hit}
use pve_agent.Shell.Policy.Commands.{ParsedCommand, programs_of}
use pve_agent.Shell.Policy.Decision.{
  ShellPattern, CommandPolicy, PolicyDecision, matches, has_opaque_expansion, line_of, decide_allow,
  decide_policy, unless_destructive, counted_hit,
}

find-any :
    {A : Type 0} (p : A → Bool) (xs : List A)
    → ((find p xs ≡ none) × (any p xs ≡ false))
      ⊎ ((x : A) × (find p xs ≡ some x) × (p x ≡ true) × (any p xs ≡ true))
find-any p [] = inl (refl, refl)
find-any p (x ∷ xs) = elim (Bool-cases (p x)) [
  | inl here ↦ inr (x, rw here refl, here, rw here refl)
  | inr no_match ↦ elim (find-any p xs) [
    | inl (e, f) ↦ inl (rw no_match e, rw no_match f)
    | inr (y, e, q, f) ↦ inr (y, rw no_match e, q, rw no_match f)
  ]
]

abbrev is_none : {A : Type 0} → Option A → Bool
is_none none = true
is_none (some a) = false

abbrev is_empty : {A : Type 0} → List A → Bool
is_empty [] = true
is_empty (x ∷ xs) = false

-- The policy's meaning as one condition: no deny pattern matches; the line destroys nothing, or
-- destruction is allowed; and there is no allow list, or the line hides nothing and one matches.
abbrev pub lets_pass : CommandPolicy → Text → List ParsedCommand → Bool
lets_pass policy command commands =
    let programs = programs_of commands in
    not (any (λ q. matches q command programs) policy.deny)
    && ((not policy.refuse_destructive || is_none (destructive_hit (map line_of commands)))
        && (is_empty policy.allow
            || (not (has_opaque_expansion command)
                && any (λ q. matches q command programs) policy.allow)))

decide_allow-allowed :
    (allow : List ShellPattern) (command : Text) (programs : List Text)
    → (decide_allow allow command programs).allowed ≡ (
        is_empty allow
        || (not (has_opaque_expansion command) && any (λ q. matches q command programs) allow))
unfolding decide_allow
decide_allow-allowed [] command programs = refl
decide_allow-allowed (p ∷ allow) command programs =
    elim (Bool-cases (has_opaque_expansion command)) [
      | inl hidden ↦ rw hidden refl
      | inr plain ↦ elim (find-any (λ q. matches q command programs) (p ∷ allow)) [
        | inl (e, f) ↦ rw (plain, e, f) refl
        | inr (q, e, m, f) ↦ rw (plain, e, f) refl
      ]
    ]

unless_destructive-allowed :
    (on : Bool) (commands : List ParsedCommand) (rest : PolicyDecision)
    → (unless_destructive (counted_hit on commands) rest).allowed
      ≡ ((not on || is_none (destructive_hit (map line_of commands))) && rest.allowed)
unless_destructive-allowed false commands rest = refl
unless_destructive-allowed true commands rest =
    elim (Option-cases (destructive_hit (map line_of commands))) [
      | inl e ↦ rw e refl
      | inr (hit, e) ↦ rw e refl
    ]

-- A parsed line is allowed exactly when the policy's condition holds of it.
pub decide_policy-lets_pass :
    (policy : CommandPolicy) (command : Text) (commands : List ParsedCommand)
    → (decide_policy policy command commands).allowed ≡ lets_pass policy command commands
unfolding decide_policy
decide_policy-lets_pass policy command commands =
    elim (find-any (λ q. matches q command (programs_of commands)) policy.deny) [
      | inr (q, e, m, f) ↦ simp (e, f)
      | inl (e, f) ↦ simp (e, f, unless_destructive-allowed, decide_allow-allowed)
    ]
