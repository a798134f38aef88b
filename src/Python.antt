-- ===== src/Python.antt =====
-- What the program uses of Python's language and standard library.
pub mod Text
pub mod Str
pub mod Int
pub mod Ip
mod IpTests
pub mod Dict
