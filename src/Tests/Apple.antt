-- ===== src/Tests/Apple.antt =====
-- Tests of the way to Apple's service: ApsApns*.cpp and SslTcpClient.cpp.
use pushserver.Prelude.{true, ◌≡◌, List, [], ◌∷◌, ◌++◌, true, false, codes, arith, All, IsByte}
use pushserver.Apns.Client.Order.{
  Act, sends, tries, times_out, disconnected, run, given, all_messages, run-all_messages,
}
use pushserver.Apns.Pool.{Pool}
use pushserver.Tests.Data.{token, client}

-- Two messages, of which the first attempt fails.
abbrev acts : List Act
acts =
    sends (codes "a")
    ∷ tries false
    ∷ times_out
    ∷ sends (codes "b")
    ∷ tries true
    ∷ disconnected
    ∷ tries true
    ∷ []

run-all_messages_example : all_messages (run acts client) ≡ all_messages client ++ given acts
run-all_messages_example = run-all_messages acts client

abbrev pool : Pool
pool = record { message_id = 4294967295; advance = client }

token-IsByte : All IsByte token
token-IsByte = ground arith

-- The id 65537 is taken for 1.
