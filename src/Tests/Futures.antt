-- ===== src/Tests/Futures.antt =====
-- The theorems on tasks and on Base64 at concrete values.
use ss_logger_cpp.Prelude.{ℕ, ◌+◌, ◌*◌, Bytes, [], ◌∷◌, ◌==◌, if◌then◌else◌}
use ss_logger_cpp.Base64.{Codec}

-- Each byte twice; the decoder stops in front of the first pair of different characters.
abbrev doubled : Bytes → Bytes
doubled [] = []
doubled (c ∷ s) = c ∷ c ∷ doubled s

abbrev halved : Bytes → Bytes × ℕ
halved [] = ([], 0)
halved (c ∷ []) = ([], 0)
halved (c ∷ d ∷ s) = let (out, read) = halved s in if c == d then (c ∷ out, read + 2) else ([], 0)

abbrev doubling : Codec
doubling = record {
  encoded_size = λ n. 2 * n;
  decoded_size = λ n. n;
  encode = doubled;
  decode = halved;
}
