-- ===== src/Commands.antt =====
-- shell/commands.c: the built-in commands as actions on the kernel's state.
pub mod World
pub mod Tree
pub mod Files
pub mod Text
pub mod WordCount
pub mod Lines
mod Tests
pub mod System
pub mod About
pub mod Cwd
pub mod Echo
pub mod Cat
pub mod Hardware
pub mod Power
pub mod Registry
