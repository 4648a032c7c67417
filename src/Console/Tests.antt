-- ===== src/Console/Tests.antt =====
-- The theorems on src/console at concrete inputs.
use pve_agent.Base.{
  throw, codes, ok, map, length, take, drop, replicate, Buffer, read_u8, read_u32_be, ◌+◌, ◌%◌, ◌≤◌,
  ◌<◌, ◌≡◌, refl, true, false, none, some, [], ◌∷◌, ◌++◌, map, arith,
}
use mathlib.Core.List.{flatten, reverse}
use pve_agent.Console.Rfb.Keys.{keysym, parse_key_combo, char_to_keysym}
use pve_agent.Console.Rfb.Client.{build_key_event}
use pve_agent.Console.Vnc.Input.{press, release_keys}
use pve_agent.Console.Vnc.KeyOrder.{sending, press-sends, release_keys-sends}
use pve_agent.Console.Des.{des_encrypt_block, vnc_des_encrypt}
use pve_agent.Console.Des.Inverse.{des_decrypt_block, des_decrypt_block-des_encrypt_block}
use pve_agent.Console.Des.SevenBits.{vnc_des_encrypt-seven_bits}
use pve_agent.Console.Rfb.{
  exceeds, subarray, parse_rectangle, parse_server_message, parse_server_init, parsed, need, raw,
  bell, ServerInit,
}
use pve_agent.Console.Rfb.Bounds.{InScreen, parse_rectangle-InScreen}
use pve_agent.Console.Rfb.Framed.{
  parse_rectangle-parsed, parse_rectangle-need, parse_server_message-parsed,
  parse_server_init-parsed,
}
use pve_agent.Console.Vnc.Surface.{Framebuffer}
use pve_agent.Console.Vnc.Session.{Session, rectangles, not_connected}
use pve_agent.Console.Vnc.Receive.{receive, receive_loop, receive_rounds}
use pve_agent.Console.Vnc.Keeping.{IsFramed}
use pve_agent.Console.Vnc.Framed.{receive-IsFramed}
use pve_agent.Console.Vnc.Loop.{receive_loop-enough}

abbrev challenge_block : Buffer
challenge_block = 1 ∷ 2 ∷ 3 ∷ 4 ∷ 5 ∷ 6 ∷ 7 ∷ 255 ∷ []

abbrev block_key : Buffer
block_key = 19 ∷ 52 ∷ 87 ∷ 121 ∷ 155 ∷ 188 ∷ 223 ∷ 241 ∷ []

des_decrypt_block-des_encrypt_block_example :
    des_decrypt_block block_key (des_encrypt_block block_key challenge_block) ≡ challenge_block
des_decrypt_block-des_encrypt_block_example =
    des_decrypt_block-des_encrypt_block block_key challenge_block
      (
        omega arith,
        (
          omega arith,
          (
            omega arith,
            (omega arith, (omega arith, (omega arith, (omega arith, (omega arith, tt))))),
          ),
        ),
      )
      refl

vnc_des_encrypt-seven_bits_example :
    vnc_des_encrypt (233 ∷ 97 ∷ []) (challenge_block ++ block_key)
    ≡ vnc_des_encrypt (map (λ c. c % 128) (233 ∷ 97 ∷ [])) (challenge_block ++ block_key)
vnc_des_encrypt-seven_bits_example =
    vnc_des_encrypt-seven_bits (233 ∷ 97 ∷ []) (challenge_block ++ block_key)

-- One pixel at the second place of the first row.
abbrev one_pixel : Buffer
one_pixel = 0 ∷ 1 ∷ 0 ∷ 0 ∷ 0 ∷ 1 ∷ 0 ∷ 1 ∷ 0 ∷ 0 ∷ 0 ∷ 0 ∷ 9 ∷ 8 ∷ 7 ∷ 0 ∷ []

one_pixel_parsed : parse_rectangle one_pixel 2 1 ≡ parsed (raw 1 0 1 1 (9 ∷ 8 ∷ 7 ∷ 0 ∷ [])) 16
unfolding parse_rectangle read_u32_be exceeds subarray
one_pixel_parsed = refl

parse_rectangle-InScreen_example : InScreen 2 1 (raw 1 0 1 1 (9 ∷ 8 ∷ 7 ∷ 0 ∷ []))
parse_rectangle-InScreen_example =
    parse_rectangle-InScreen one_pixel 2 1 (raw 1 0 1 1 (9 ∷ 8 ∷ 7 ∷ 0 ∷ [])) 16 one_pixel_parsed

parse_rectangle-parsed_example :
    (0 < 16)
    × (16 ≤ length one_pixel)
    × (parse_rectangle (one_pixel ++ 2 ∷ []) 2 1 ≡ parsed (raw 1 0 1 1 (9 ∷ 8 ∷ 7 ∷ 0 ∷ [])) 16)
parse_rectangle-parsed_example =
    parse_rectangle-parsed one_pixel (2 ∷ []) 2 1 (raw 1 0 1 1 (9 ∷ 8 ∷ 7 ∷ 0 ∷ [])) 16
      one_pixel_parsed

header_waits : parse_rectangle (take 13 one_pixel) 2 1 ≡ need 16
unfolding parse_rectangle read_u32_be exceeds
header_waits = refl

parse_rectangle-need_example :
    (length (take 13 one_pixel) < 16)
    × (parse_rectangle (take 13 one_pixel ++ 8 ∷ []) 2 1 ≡ need 16)
parse_rectangle-need_example =
    parse_rectangle-need (take 13 one_pixel) (8 ∷ []) 2 1 16 header_waits (omega arith)

bell_parsed : parse_server_message (2 ∷ 0 ∷ []) ≡ parsed bell 1
unfolding parse_server_message read_u8
bell_parsed = refl

parse_server_message-parsed_example :
    (0 < 1) × (1 ≤ 2) × (parse_server_message ((2 ∷ 0 ∷ []) ++ 7 ∷ []) ≡ parsed bell 1)
parse_server_message-parsed_example =
    parse_server_message-parsed (2 ∷ 0 ∷ []) (7 ∷ []) bell 1 bell_parsed

-- A screen of two pixels by one, named `a`.
abbrev hello : Buffer
hello = 0 ∷ 2 ∷ 0 ∷ 1 ∷ (replicate 16 0 ++ 0 ∷ 0 ∷ 0 ∷ 1 ∷ b'a' ∷ [])

abbrev hello_init : ServerInit
hello_init = record { width = 2; height = 1; name = b'a' ∷ [] }

hello_parsed : parse_server_init hello ≡ parsed hello_init 25
unfolding parse_server_init read_u32_be subarray
hello_parsed = refl

parse_server_init-parsed_example :
    (0 < 25) × (25 ≤ length hello) × (parse_server_init (hello ++ 1 ∷ []) ≡ parsed hello_init 25)
parse_server_init-parsed_example =
    parse_server_init-parsed hello (1 ∷ []) hello_init 25 hello_parsed

abbrev blank : Framebuffer
blank = record { width = 2; height = 1; buffer = replicate 8 0; update_seq = 0 }

-- A session in an update of one rectangle.
abbrev painting : Session
painting = record {
  socket = some true;
  framebuffer = some blank;
  chunks = take 13 one_pixel ∷ [];
  buffered = 13;
  needed = 1;
  state = rectangles;
  pending_rects = 1;
  painted = false;
  settling = false;
  password = [];
  held = [];
  tracked = false;
  last_error = none;
  close_emitted = false;
  max_message_bytes = 67108864;
  sent = [];
  events = [];
}

receive-IsFramed_example : IsFramed ((receive (drop 13 one_pixel) painting).framebuffer)
receive-IsFramed_example = receive-IsFramed (drop 13 one_pixel) painting (refl, omega arith)

receive_loop-enough_example :
    receive_rounds (λ s. (throw not_connected, s)) (14 + 5) painting ≡ receive_loop 14 painting
unfolding flatten
receive_loop-enough_example =
    receive_loop-enough (λ s. (throw not_connected, s)) 14 5 painting refl (omega arith)
      (omega arith)

ctrl_c : parse_key_combo (codes "ctrl-c") ≡ ok (map keysym (0xffe3 ∷ 99 ∷ []))
unfolding parse_key_combo char_to_keysym
ctrl_c = refl

press-sends_example : press (codes "ctrl-c") painting ≡ (
  ok tt,
  sending painting (
      map (build_key_event true) (0xffe3 ∷ 99 ∷ [])
      ++ map (build_key_event false) (reverse (0xffe3 ∷ 99 ∷ []))),
)
press-sends_example = press-sends (codes "ctrl-c") (0xffe3 ∷ 99 ∷ []) painting ctrl_c refl

abbrev holding : Session
holding = record painting { held = 0xffe3 ∷ 99 ∷ []; tracked = true }

release_keys-sends_example : release_keys holding ≡ (
  ok tt,
  record (sending holding (map (build_key_event false) (0xffe3 ∷ 99 ∷ []))) {
    held = [];
    tracked = false;
  },
)
release_keys-sends_example = release_keys-sends holding refl
