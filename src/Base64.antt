-- ===== src/Base64.antt =====
-- include/Utils/include/Base64.h and include/Utils/src/Base64.cpp: the buffers around the encoder and
-- the decoder of Boost.Beast, which are parameters, and the messages that are logged.
use ss_logger_cpp.Prelude.{ℕ, zero, suc, ◌≤◌, Bytes, codes, List, [], ◌∷◌, ◌++◌, length}
use ss_logger_cpp.Json.Result.{Result, ok, undefined, ◌>>=◌}
use ss_logger_cpp.Logger.Message.{LogMessage, LogLevel, debug, trace}
use ss_logger_cpp.Logger.State.{Logger, log_debug, log_trace}

-- `boost::beast::detail::base64`: the two sizes, the characters that the encoder writes, and the
-- bytes that the decoder writes with the number of characters that it has read.
pub record Codec : Type 0 where
  pub encoded_size : ℕ → ℕ
  pub decoded_size : ℕ → ℕ
  pub encode : Bytes → Bytes
  pub decode : Bytes → Bytes × ℕ

-- What the documentation says of the sizes: the most characters that encode a text of a length, and
-- the most bytes that a text of a length is decoded to.
pub record IsCodec (b : Codec) : Type 0 where
  pub encode_room : (s : Bytes) → length (b.encode s) ≤ b.encoded_size (length s)
  pub decode_room : (s : Bytes) → length (b.decode s).0 ≤ b.decoded_size (length s)

-- `std::string(n, '\0')`.
unfoldable pub zeros : ℕ → Bytes
zeros zero = []
zeros (suc n) = 0 ∷ zeros n

-- Bytes written to the front of a buffer; to write past its end is undefined behaviour.
unfoldable pub write : Bytes → Bytes → Result Bytes
write [] buffer = ok buffer
write (c ∷ out) [] = undefined
write (c ∷ out) (d ∷ buffer) = do rest ← write out buffer; ok (c ∷ rest)

-- `resize`.
unfoldable pub resize : ℕ → Bytes → Bytes
resize zero s = []
resize (suc n) [] = 0 ∷ resize n []
resize (suc n) (c ∷ s) = c ∷ resize n s

-- `name` is the function's name in the source location.
module _ (b : Codec) (name : Bytes) where
  unfoldable pub base64_encode : Bytes → Logger → Result (Bytes × Logger)
  base64_encode decoded lg = do
    let lg = log_debug (codes "Entering Base64Encode function") name lg
    let lg = log_trace (codes "Input string for encoding") name lg
    let buffer = zeros (b.encoded_size (length decoded))
    output ← write (b.encode decoded) buffer
    let lg = log_trace (codes "Encoded a string in Base64") name lg
    let lg = log_debug (codes "Exiting Base64Encode function") name lg
    ok (output, lg)

  unfoldable pub base64_decode : Bytes → Logger → Result (Bytes × Logger)
  base64_decode encoded lg = do
    let lg = log_debug (codes "Entering Base64::Base64Decode function") name lg
    let lg = log_trace (codes "Input Base64 string for decoding") name lg
    let buffer = zeros (b.decoded_size (length encoded))
    let (out, read) = b.decode encoded
    output ← write out buffer
    let lg = log_trace (codes "Decoded a string from Base64::Base64Decode") name lg
    let lg = log_debug (codes "Exiting Base64Decode function") name lg
    ok (resize (length out) output, lg)

  -- The messages of a call, in order.
  abbrev pub encode_logs : Logger → Logger
  encode_logs lg = log_debug (codes "Exiting Base64Encode function") name (
      log_trace (codes "Encoded a string in Base64") name (
        log_trace (codes "Input string for encoding") name
          (log_debug (codes "Entering Base64Encode function") name lg)))

  abbrev pub decode_logs : Logger → Logger
  decode_logs lg = log_debug (codes "Exiting Base64Decode function") name (
      log_trace (codes "Decoded a string from Base64::Base64Decode") name (
        log_trace (codes "Input Base64 string for decoding") name
          (log_debug (codes "Entering Base64::Base64Decode function") name lg)))

module _ (b : Codec) (name : Bytes) where
  -- The messages of the two functions.
  abbrev pub said : LogLevel → Bytes → LogMessage
  said level text = record { message = text; log_level = level; function_name = name }

  abbrev pub encode_messages : List LogMessage
  encode_messages =
      said debug (codes "Entering Base64Encode function")
      ∷ said trace (codes "Input string for encoding")
      ∷ said trace (codes "Encoded a string in Base64")
      ∷ said debug (codes "Exiting Base64Encode function")
      ∷ []

  abbrev pub decode_messages : List LogMessage
  decode_messages =
      said debug (codes "Entering Base64::Base64Decode function")
      ∷ said trace (codes "Input Base64 string for decoding")
      ∷ said trace (codes "Decoded a string from Base64::Base64Decode")
      ∷ said debug (codes "Exiting Base64Decode function")
      ∷ []

  abbrev pub with_messages : List LogMessage → Logger → Logger
  with_messages ms lg = record lg { queue = lg.queue ++ ms }
