-- ===== src/Shell/Termproxy/Tests.antt =====
-- The theorems on src/shell/termproxy.ts at concrete inputs.
use pve_agent.Base.{
  take, drop, Text, codes, print_nat, ◌≡◌, refl, inl, true, none, some, List, [], ◌∷◌, arith,
}
use mathlib.Core.List.{flatten}
use pve_agent.Shell.Termproxy.{Session, no_waiter, result_waiter, transport_error, append, fail}
use pve_agent.Shell.Termproxy.Output.{code_of, clean_output}
use pve_agent.Shell.Termproxy.Marked.{marked}
use pve_agent.Shell.Termproxy.Chunks.{deliver, awaiting, answered_with, deliver-answered}
use pve_agent.Shell.Termproxy.Bounded.{IsSound, Steps, here, step, arrives, breaks, steps-IsSound}
use pve_agent.Shell.Termproxy.Failure.{steps-HasFailed}

abbrev new_session : Session
new_session = record {
  socket = some true;
  buffer = [];
  ready = true;
  failure = none;
  waiter = no_waiter;
  keepalive = true;
  settled = [];
  sent = [];
}

abbrev printed : Text
printed = marked (codes "M") (codes "$ ") (codes "ready") (codes "oops") 3 (10 ∷ [])

abbrev pieces : List Text
pieces = take 7 printed ∷ take 5 (drop 7 printed) ∷ drop 12 printed ∷ []

deliver-answered_example :
    deliver (codes "M") 100 pieces (awaiting (codes "M") 100 new_session [] result_waiter)
    ≡ answered_with
        (codes "M")
        100
        new_session
        (record {
          stdout = clean_output (codes "ready");
          stderr = clean_output (codes "oops");
          exit_code = code_of 3;
        })
        (10 ∷ [])
unfolding print_nat flatten
deliver-answered_example =
    deliver-answered (codes "M") 100 new_session pieces (codes "$ ") (codes "ready") (codes "oops")
      3 (10 ∷ []) refl refl refl refl refl (omega arith)

abbrev broken : Session
broken = fail (codes "gone") new_session

abbrev run_of :
    Steps
      (codes "M")
      100
      (λ s. s)
      (λ s. s)
      4096
      new_session
      (append (codes "M") 100 (codes "hi") broken)
run_of =
    step new_session broken _ (breaks (codes "gone") new_session)
      (step broken _ _ (arrives (codes "hi") broken) (here _))

steps-IsSound_example : IsSound (codes "M") 100 (append (codes "M") 100 (codes "hi") broken)
steps-IsSound_example =
    steps-IsSound (codes "M") 100 (λ s. s) (λ s. s) 4096 new_session
      (append (codes "M") 100 (codes "hi") broken) run_of (omega arith, inl refl)

steps-HasFailed_example :
    (append (codes "M") 100 (codes "hi") broken).failure ≡ some (transport_error (codes "gone"))
unfolding fail
steps-HasFailed_example =
    steps-HasFailed (transport_error (codes "gone")) (codes "M") 100 (λ s. s) (λ s. s) 4096 broken
      (append (codes "M") 100 (codes "hi") broken)
      (step broken _ _ (arrives (codes "hi") broken) (here _)) refl
