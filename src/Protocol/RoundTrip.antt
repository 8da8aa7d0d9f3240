-- ===== src/Protocol/RoundTrip.antt =====
-- The byte form of the message header, both ways.
use Prim.Native.Nat.{bit_or}
use hft_legacy_migration_fra.Base.Bits.{bit_or_sum}
use hft_legacy_migration_fra.Base.{
  ℕ, ◌+◌, ◌*◌, ◌/◌, ◌%◌, ◌^◌, ◌<◌, ◌≡◌, refl, Bytes, [], ◌∷◌, ◌++◌, ok, err, runtime_error, codes,
  arith, length, take, All, ◌⊎◌, inl, inr,
}
use hft_legacy_migration_fra.Protocol.{
  MessageHeader, u32, write_u32, join_u32, shl, serialize, deserialize,
}

abbrev pub IsByte : ℕ → Type 0
IsByte b = b < 256

-- The joined bytes as a sum.
pub join_u32_sum :
    (a b c d : ℕ)
    → IsByte a
    → IsByte b
    → IsByte c
    → IsByte d
    → join_u32 a b c d ≡ a * 2 ^ 24 + b * 2 ^ 16 + c * 2 ^ 8 + d
unfolding join_u32
join_u32_sum a b c d ha hb hc hd =
    let ab = bit_or_sum 24 a (shl a 24) (shl b 16) (omega arith) (omega arith) in
    let abc =
      bit_or_sum 16 (a * 2 ^ 8 + b) (bit_or (shl a 24) (shl b 16)) (shl c 8) (omega arith)
        (omega arith) in
    let abcd =
      bit_or_sum 8 (a * 2 ^ 16 + b * 2 ^ 8 + c) (bit_or (bit_or (shl a 24) (shl b 16)) (shl c 8)) d
        (omega arith) (omega arith) in
    omega arith

-- Reading the four bytes that are written for a number gives it back.
pub join-write_u32 :
    (n : ℕ)
    → n < u32
    → join_u32 (n / 2 ^ 24 % 256) (n / 2 ^ 16 % 256) (n / 2 ^ 8 % 256) (n % 256) ≡ n
join-write_u32 n h = omega (
  arith,
  join_u32_sum (n / 2 ^ 24 % 256) (n / 2 ^ 16 % 256) (n / 2 ^ 8 % 256) (n % 256) (omega arith)
      (omega arith) (omega arith) (omega arith),
)

pub length-write_u32 : (n : ℕ) → length (write_u32 n) ≡ 4
unfolding write_u32
length-write_u32 n = refl

-- A header is read back from its bytes, whatever follows them, if its payload size is a uint32_t.
pub deserialize-serialize :
    (h : MessageHeader) (rest : Bytes)
    → h.payload_size < u32
    → deserialize (serialize h ++ rest) ≡ ok h
unfolding deserialize serialize write_u32
deserialize-serialize h rest fits = rw (join-write_u32 h.payload_size fits)

-- From a buffer of bytes that is shorter than a header reading fails with an error; from any other
-- buffer it gives a header whose own bytes are the first five of the buffer, with a size below 2 ^ 32.
pub serialize-deserialize :
    (buffer : Bytes)
    → All IsByte buffer
    → ((length buffer < 5)
        × (deserialize buffer ≡ err (runtime_error (codes "Buffer too small for header"))))
      ⊎ ((h : MessageHeader) × (deserialize buffer ≡ ok h)
          × (serialize h ≡ take 5 buffer)
          × (h.payload_size < u32))
unfolding deserialize serialize write_u32
serialize-deserialize (t ∷ a ∷ b ∷ c ∷ d ∷ rest) (ht, (ha, (hb, (hc, (hd, hr))))) =
    let sum = join_u32_sum a b c d ha hb hc hd in
    inr (
      record { message_type = t; payload_size = join_u32 a b c d },
      refl,
      ground (arith, sum),
      omega (arith, sum),
    )
serialize-deserialize [] h = inl (omega arith, refl)
serialize-deserialize (t ∷ []) h = inl (omega arith, refl)
serialize-deserialize (t ∷ a ∷ []) h = inl (omega arith, refl)
serialize-deserialize (t ∷ a ∷ b ∷ []) h = inl (omega arith, refl)
serialize-deserialize (t ∷ a ∷ b ∷ c ∷ []) h = inl (omega arith, refl)
