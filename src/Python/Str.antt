-- ===== src/Python/Str.antt =====
-- Python's `str` as a list of code points, with the methods that the program calls. `lower`
-- follows Python on ASCII; a letter outside ASCII is left as it is.
pub mod Affix
pub mod Split
pub mod Strip
