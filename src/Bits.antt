-- ===== src/Bits.antt =====
-- Laws of `&`, `|` and `^` at every width, which the native operations lack at variables.
-- `Step` has the equation for the lowest digit, and `Split` cuts a word at any digit.
pub mod Step
pub mod Split
pub mod Digits
