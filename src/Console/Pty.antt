-- ===== src/Console/Pty.antt =====
-- src/console/pty.ts: the frames that a terminal websocket takes. `utf8` is the encoding of a string as
-- bytes, a parameter.
pub mod Stream
mod Tests
use pve_agent.Base.{
  length, take, drop, Text, codes, print_nat, Buffer, ℕ, zero, suc, List, [], ◌∷◌, ◌++◌, map,
}

-- What goes out on the websocket: a string, or bytes.
pub data Frame : Type 0 where
  text_frame : Text → Frame
  binary_frame : Buffer → Frame

abbrev pub input_chunk_bytes : ℕ
input_chunk_bytes = 256

abbrev pub keepalive_frame : Text
keepalive_frame = codes "2"

unfoldable pub login_frame : Text → Text → Text
login_frame user ticket = user ++ b':' ∷ (ticket ++ 10 ∷ [])

abbrev pub input_frame : Buffer → Buffer
input_frame chunk = codes "0:" ++ (print_nat (length chunk) ++ b':' ∷ chunk)

-- The loop over the payload. A frame takes a byte at least, so the bytes bound the frames.
unfoldable pub frames_from : ℕ → Buffer → List Buffer
unfolding print_nat
frames_from zero payload = []
frames_from (suc fuel) [] = []
frames_from (suc fuel) (b ∷ payload) =
    input_frame (take input_chunk_bytes (b ∷ payload))
    ∷ frames_from fuel (drop input_chunk_bytes (b ∷ payload))

unfoldable pub resize_frame : ℕ → ℕ → Text
unfolding print_nat
resize_frame cols rows = codes "1:" ++ (print_nat cols ++ b':' ∷ (print_nat rows ++ b':' ∷ []))

module _ (utf8 : Text → Buffer) where
  unfoldable pub input_frames : Text → List Buffer
  unfolding frames_from
  input_frames text = frames_from (length (utf8 text)) (utf8 text)

  -- What is sent on a socket, by the log of its frames.
  unfoldable pub send_input : Text → List Frame → List Frame
  unfolding input_frames
  send_input text sent = sent ++ map binary_frame (input_frames text)
