-- ===== src/Console.antt =====
-- src/console: the VNC side of a guest's console, and the frames of a terminal websocket.
pub mod Des
pub mod Rfb
pub mod Vnc
pub mod Pixels
pub mod Pty
mod Tests
