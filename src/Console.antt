-- ===== src/Console.antt =====
-- The user's side of the kernel: the text screen, the keyboard and the shell.
pub mod Screen
pub mod Scroll
pub mod Cursor
pub mod Print
pub mod Paint
pub mod Boxes
pub mod Draws
pub mod BoxLines
pub mod BoxEdges
pub mod Banners
pub mod Faults
pub mod Reports
pub mod Clock
pub mod Keyboard
pub mod Edit
pub mod Refine
pub mod Typing
pub mod Line
pub mod Shell
pub mod Commands
