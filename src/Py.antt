-- ===== src/Py.antt =====
-- What the program uses of Python's own types.
pub mod Text
pub mod Result
pub mod Value
pub mod Bytes
