-- ===== src/Tests/Decimal.antt =====
-- A `std::stod` for the tests: whole numbers, read from the digits in front. It meets every
-- hypothesis that the development makes on the parameter.
use ss_logger_cpp.Prelude.{ℕ, ◌+◌, ◌-◌, ◌*◌, [], ◌∷◌, Bytes, if◌then◌else◌}
use ss_logger_cpp.Json.Result.{Result, ok, throws, invalid_argument}
use ss_logger_cpp.Json.Stream.{is_digit}

unfoldable pub digits_value : ℕ → Bytes → ℕ
digits_value n [] = n
digits_value n (c ∷ r) =
    let more = digits_value (n * 10 + (c - b'0')) r in if is_digit c then more else n

unfoldable pub decimal : Bytes → Result ℕ
unfolding digits_value
decimal [] = throws invalid_argument
decimal (c ∷ r) = if is_digit c then ok (digits_value 0 (c ∷ r)) else throws invalid_argument
