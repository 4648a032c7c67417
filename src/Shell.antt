-- ===== src/Shell.antt =====
-- src/shell: quoting command lines, the policy that reads them, and the shell on a terminal websocket.
pub mod Escape
pub mod Policy
pub mod Termproxy
mod Tests
