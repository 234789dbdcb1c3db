-- ===== src/Turns.antt =====
-- src/turn/: what a turn stores of a message and of the reply, and what it puts before the model. The store
-- of the messages is that of src/memory/mod.rs.
pub mod Bytes
pub mod Query
pub mod Messages
pub mod Prepare
mod History
mod Shorter
mod Fronts
mod Clean
mod Ascii
pub mod Sections
mod Bound
mod Tests
