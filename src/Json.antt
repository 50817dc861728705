-- ===== src/Json.antt =====
-- The calls of the jsoncpp library (json/json.h, not part of the repository) that the server makes.
-- `none` stands for a failed assertion or an exception of the library.
use pushserver.Prelude.{ℕ, Bool, Option, List, Bytes}

pub record Json : Type 1 where
  pub Value : Type 0
  -- `Json::Value()`, and the constructors from a string, a `bool` and an unsigned number.
  pub null : Value
  pub of_string : Bytes → Value
  pub of_bool : Bool → Value
  pub of_uint : ℕ → Value
  -- The constructor from an `int`, of a number that is not negative.
  pub of_int : ℕ → Value
  -- `v[name]` as a value; a missing member is null, and a `v` that is no object fails.
  pub get : Value → Bytes → Option Value
  -- `v` after `v[name]` has been named, which adds a missing member.
  pub touch : Value → Bytes → Value
  -- `v[name] = x`; a `v` that is no object fails.
  pub set : Value → Bytes → Value → Option Value
  -- `getMemberNames()`, in the order of `std::map`; a null has none, and other values fail.
  pub members : Value → Option (List Bytes)
  pub as_string : Value → Option Bytes
  -- `asCString()`, which fails on what is no string.
  pub as_c_string : Value → Option Bytes
  pub as_bool : Value → Option Bool
  -- `asInt()`, as a 32-bit pattern.
  pub as_int : Value → Option ℕ
  -- `Reader::parse`: `none` is `false`.
  pub parse : Bytes → Option Value
  -- `FastWriter::write`.
  pub write : Value → Bytes
