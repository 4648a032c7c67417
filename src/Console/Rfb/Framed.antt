-- ===== src/Console/Rfb/Framed.antt =====
-- src/console/rfb.ts: a message that was read, and the bytes that arrive after it.
use pve_agent.Base.{length, Buffer, ℕ, ◌≤◌, ◌<◌, ◌≡◌, subst, ◌++◌}
use pve_agent.Console.Rfb.{
  ParseResult, parsed, need, ServerMessage, Rectangle, ServerInit, parse_server_message,
  parse_rectangle, parse_server_init,
}
use pve_agent.Console.Rfb.Framing.{
  Extends, parse_server_message-Extends, parse_rectangle-Extends, parse_server_init-Extends,
}

module _ {A : Type 0} where
  parsed-Extends :
      (buf more : Buffer) (r r' : ParseResult A) (v : A) (n : ℕ)
      → Extends buf more r r'
      → r ≡ parsed v n
      → (0 < n) × (n ≤ length buf) × (r' ≡ parsed v n)
  parsed-Extends buf more r r' v n h e = subst (λ q. Extends buf more q r') e h

  need-Extends :
      (buf more : Buffer) (r r' : ParseResult A) (n : ℕ)
      → Extends buf more r r'
      → r ≡ need n
      → length (buf ++ more) < n
      → (length buf < n) × (r' ≡ need n)
  need-Extends buf more r r' n h e k =
      let h' = subst (λ q. Extends buf more q r') e h in (h'.0, h'.1 k)

-- A server message that is read from a buffer takes at least one byte and no more than the buffer
-- holds, and the same message of the same length is read when more bytes follow.
pub parse_server_message-parsed :
    (buf more : Buffer) (message : ServerMessage) (n : ℕ)
    → parse_server_message buf ≡ parsed message n
    → (0 < n) × (n ≤ length buf) × (parse_server_message (buf ++ more) ≡ parsed message n)
parse_server_message-parsed buf more message n =
    parsed-Extends buf more _ _ message n (parse_server_message-Extends buf more)

-- A rectangle that is read from a buffer takes at least one byte and no more than the buffer holds,
-- and the same rectangle of the same length is read when more bytes follow.
pub parse_rectangle-parsed :
    (buf more : Buffer) (width height : ℕ) (rectangle : Rectangle) (n : ℕ)
    → parse_rectangle buf width height ≡ parsed rectangle n
    → (0 < n) × (n ≤ length buf) × (parse_rectangle (buf ++ more) width height ≡ parsed rectangle n)
parse_rectangle-parsed buf more width height rectangle n =
    parsed-Extends buf more _ _ rectangle n (parse_rectangle-Extends buf more width height)

-- When the rectangle parser asks for `n` bytes in all, the buffer holds fewer, and with more bytes,
-- but fewer than `n`, it asks for the same again.
pub parse_rectangle-need :
    (buf more : Buffer) (width height n : ℕ)
    → parse_rectangle buf width height ≡ need n
    → length (buf ++ more) < n
    → (length buf < n) × (parse_rectangle (buf ++ more) width height ≡ need n)
parse_rectangle-need buf more width height n =
    need-Extends buf more _ _ n (parse_rectangle-Extends buf more width height)

-- The server's opening message, with its name, is read alike when more bytes follow, and it takes
-- at least one byte and no more than the buffer holds.
pub parse_server_init-parsed :
    (buf more : Buffer) (init : ServerInit) (n : ℕ)
    → parse_server_init buf ≡ parsed init n
    → (0 < n) × (n ≤ length buf) × (parse_server_init (buf ++ more) ≡ parsed init n)
parse_server_init-parsed buf more init n =
    parsed-Extends buf more _ _ init n (parse_server_init-Extends buf more)
