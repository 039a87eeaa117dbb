-- ===== src/Auth/Samples.antt =====
-- Tokens that are written out, and persons that are kept in a list, for the tests of the login.
mod Crates
mod Tests
