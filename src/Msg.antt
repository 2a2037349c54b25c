-- ===== src/Msg.antt =====
-- The wire types of github.com/kayushkin/llm-bridge/msg, which stands outside this repository:
-- only the constants and fields that internal/harness names are here, under their names there.
-- A string type whose constants the code compares is a data type with a constructor for each
-- constant, one for "" and one for any other text.
pub mod State
pub mod Event
pub mod Derived
pub mod Api
