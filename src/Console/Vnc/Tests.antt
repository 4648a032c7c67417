-- ===== src/Console/Vnc/Tests.antt =====
-- The theorem on the pieces of what arrives at a concrete input.
use pve_agent.Base.{codes, Buffer, ◌≡◌, refl, true, false, none, some, [], ◌∷◌, ◌++◌, arith}
use mathlib.Core.List.{flatten}
use pve_agent.Console.Vnc.Session.{Session, version}
use pve_agent.Console.Rfb.{parse_protocol_version}
use pve_agent.Console.Vnc.Receive.{receive, receive_rounds, step, take_result}
use pve_agent.Console.Vnc.Pieces.{merged}
use pve_agent.Console.Vnc.Chunking.{receive-pieces}

abbrev fresh : Session
fresh = record {
  socket = some true;
  framebuffer = none;
  chunks = [];
  buffered = 0;
  needed = 1;
  state = version;
  pending_rects = 0;
  painted = false;
  settling = true;
  password = [];
  held = [];
  tracked = false;
  last_error = none;
  close_emitted = false;
  max_message_bytes = 67108864;
  sent = [];
  events = [];
}

abbrev half_greeting : Buffer
half_greeting = codes "RFB 00"

receive-pieces_example :
    merged (receive (codes "3.008\n") (receive half_greeting fresh))
    ≡ merged (receive (half_greeting ++ codes "3.008\n") fresh)
unfolding receive_rounds flatten step take_result parse_protocol_version
receive-pieces_example =
    receive-pieces half_greeting (codes "3.008\n") fresh
      (record fresh { chunks = half_greeting ∷ []; buffered = 6; needed = 12 }) refl (omega arith)
      refl
