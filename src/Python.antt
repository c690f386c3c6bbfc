-- ===== src/Python.antt =====
-- The parts of Python's language and standard library that the program uses: text, pure paths,
-- files, exceptions and the `re` engine.
pub mod Text
pub mod Effects
pub mod Files
pub mod Regex
pub mod Paths
pub mod Platform
pub mod Process
