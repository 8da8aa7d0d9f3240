-- ===== src/Protocol.antt =====
-- asio-sql-service/common/protocol.hpp: the message types, the message header with its byte form,
-- and the request. A uint8_t or uint32_t is a number below 2 ^ 8 or 2 ^ 32. `x & 0xFF` is
-- `x % 256` and `x >> k` is `x / 2 ^ k`; `|` is the native `bit_or`.
pub mod RoundTrip
use Prim.Native.Nat.{bit_or}
use hft_legacy_migration_fra.Base.{
  ℕ, ◌*◌, ◌/◌, ◌%◌, ◌^◌, ◌+◌, Bytes, List, [], ◌∷◌, Option, none, some, Result, ok, err,
  runtime_error, codes, ltb, if◌then◌else◌, length,
}

pub data MessageType : Type 0 where
  query_raw query_json query_binary query_stream : MessageType
  response_raw response_json response_binary response_stream response_error : MessageType

-- `static_cast<uint8_t>(type)`.
unfoldable pub type_code : MessageType → ℕ
type_code query_raw = 1
type_code query_json = 2
type_code query_binary = 3
type_code query_stream = 4
type_code response_raw = 11
type_code response_json = 12
type_code response_binary = 13
type_code response_stream = 14
type_code response_error = 99

pub record MessageHeader : Type 0 where
  pub message_type : ℕ
  pub payload_size : ℕ

abbrev pub header_size : ℕ
header_size = 5

abbrev pub u32 : ℕ
u32 = 2 ^ 32

-- The four `push_back`s of a uint32_t, big-endian. The server writes its counts and lengths so too.
unfoldable pub write_u32 : ℕ → Bytes
write_u32 n = n / 2 ^ 24 % 256 ∷ n / 2 ^ 16 % 256 ∷ n / 2 ^ 8 % 256 ∷ n % 256 ∷ []

-- `static_cast<uint32_t>(b) << k`.
abbrev pub shl : ℕ → ℕ → ℕ
shl b k = b * 2 ^ k % 2 ^ 32

-- Four bytes joined by `|`.
unfoldable pub join_u32 : ℕ → ℕ → ℕ → ℕ → ℕ
join_u32 a b c d = bit_or (bit_or (bit_or (shl a 24) (shl b 16)) (shl c 8)) d

unfoldable pub serialize : MessageHeader → Bytes
serialize h = h.message_type ∷ write_u32 h.payload_size

-- The clauses are the size test: the header is read from the first five bytes.
unfoldable pub deserialize : Bytes → Result MessageHeader
deserialize (t ∷ a ∷ b ∷ c ∷ d ∷ rest) =
    ok (record { message_type = t; payload_size = join_u32 a b c d })
deserialize _ = err (runtime_error (codes "Buffer too small for header"))

pub record QueryRequest : Type 0 where
  pub sql : Bytes

unfoldable pub request_serialize : QueryRequest → Bytes
request_serialize r = r.sql

unfoldable pub request_deserialize : Bytes → QueryRequest
request_deserialize s = record { sql = s }
