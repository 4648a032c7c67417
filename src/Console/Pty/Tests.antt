-- ===== src/Console/Pty/Tests.antt =====
-- The theorem on src/console/pty.ts at a concrete input.
use pve_agent.Base.{length, replicate, All, ◌≡◌, some}
use mathlib.Core.List.{flatten}
use pve_agent.Console.Pty.{input_frames}
use pve_agent.Console.Pty.Stream.{read_frames, IsInput, input_frames-read}

input_frames-read_example :
    (read_frames
        (length (input_frames (λ s. s) (replicate 300 97)))
        (flatten (input_frames (λ s. s) (replicate 300 97)))
      ≡ some (replicate 300 97))
    × All IsInput (input_frames (λ s. s) (replicate 300 97))
input_frames-read_example = input_frames-read (λ s. s) (replicate 300 97)
