-- ===== src/Web.antt =====
-- Package web: its errors, the writer of a response, how a body is bound, how a handler's error is answered, and the settings and the state
-- of a Server.
pub mod Error
pub mod Response
pub mod Context
pub mod Handler
pub mod Server
pub mod Bind
mod Tests
