-- ===== src/Console/Vnc.antt =====
-- src/console/vnc.ts: the session to a guest's VNC server. The screen is in `Surface`, the monad of
-- its methods in `Session`, what arrives in `Receive`, and what the caller sends in `Input`.
pub mod Sizes
pub mod Surface
pub mod Session
pub mod Framed
pub mod Keeping
pub mod KeyOrder
pub mod Loop
pub mod Frames
pub mod Framing
pub mod Pieces
pub mod Chunking
mod Tests
pub mod Receive
pub mod Input
