-- ===== src/Binary/Reads.antt =====
-- Reads of a uint32_t from an array of bytes.
use hft_legacy_migration_fra.Base.{
  ℕ, zero, suc, ◌+◌, ◌<◌, ◌≤◌, ◌≡◌, refl, ap, ◌∙◌, Bytes, [], ◌∷◌, ◌++◌, some, arith, length,
  get_elem?, some_injective, take, drop,
}
use hft_legacy_migration_fra.Protocol.{u32, write_u32, join_u32}
use hft_legacy_migration_fra.Protocol.RoundTrip.{join-write_u32}
use hft_legacy_migration_fra.Binary.{read_u32, copy}

get_elem?-append :
    (front rest : Bytes) (i : ℕ) → get_elem? (front ++ rest) (length front + i) ≡ get_elem? rest i
get_elem?-append [] rest i = ap (get_elem? rest) (omega arith)
get_elem?-append (x ∷ front) rest i =
    ap (get_elem? (x ∷ (front ++ rest))) {x = suc (length front) + i} {y = suc (length front + i)}
      (omega arith)
    ∙ get_elem?-append front rest i

read_u32_of :
    (bytes : Bytes) (offset a b c d : ℕ)
    → get_elem? bytes offset ≡ some a
    → get_elem? bytes (offset + 1) ≡ some b
    → get_elem? bytes (offset + 2) ≡ some c
    → get_elem? bytes (offset + 3) ≡ some d
    → read_u32 bytes offset ≡ some (join_u32 a b c d)
unfolding read_u32
read_u32_of bytes offset a b c d ea eb ec ed = ground arith

-- Four bytes that were written behind `front` are read at its length.
pub read-write_u32 :
    (n : ℕ) (front rest : Bytes)
    → n < u32
    → read_u32 (front ++ (write_u32 n ++ rest)) (length front) ≡ some n
unfolding write_u32
read-write_u32 n front rest fits =
    let bytes = write_u32 n ++ rest in
    let first : get_elem? (front ++ bytes) (length front) ≡ get_elem? bytes 0 =
      ap (get_elem? (front ++ bytes)) (omega arith) ∙ get_elem?-append front bytes 0 in
    read_u32_of (front ++ bytes) (length front) _ _ _ _ first (get_elem?-append front bytes 1)
      (get_elem?-append front bytes 2) (get_elem?-append front bytes 3)
    ∙ ap some (join-write_u32 n fits)

get_elem?-some : (xs : Bytes) (i : ℕ) → i < length xs → (x : ℕ) × (get_elem? xs i ≡ some x)
get_elem?-some [] i h = absurd (omega arith)
get_elem?-some (x ∷ xs) zero h = (x, refl)
get_elem?-some (x ∷ xs) (suc i) h = get_elem?-some xs i (omega arith)

drop_at : (xs : Bytes) (i x : ℕ) → get_elem? xs i ≡ some x → drop i xs ≡ x ∷ drop (suc i) xs
drop_at [] i x e = cc
drop_at (y ∷ xs) zero x e = ap (λ z. z ∷ xs) (some_injective e)
drop_at (y ∷ xs) (suc i) x e = drop_at xs i x e

-- What `copy` reads where all of it lies inside.
pub copy-some :
    (bytes : Bytes) (offset len : ℕ)
    → offset + len ≤ length bytes
    → copy bytes offset len ≡ some (take len (drop offset bytes))
unfolding copy
copy-some bytes offset zero h = refl
copy-some bytes offset (suc len) h =
    let (b, e) = get_elem?-some bytes offset (omega arith) in
    let rest = copy-some bytes (offset + 1) len (omega arith) in
    let next : offset + 1 ≡ suc offset = omega arith in
    ground (arith, e, rest, next, drop_at bytes offset b e)

pub read_u32-some :
    (bytes : Bytes) (offset : ℕ)
    → offset + 4 ≤ length bytes
    → (n : ℕ) × (read_u32 bytes offset ≡ some n)
read_u32-some bytes offset h =
    let (a, ea) = get_elem?-some bytes offset (omega arith) in
    let (b, eb) = get_elem?-some bytes (offset + 1) (omega arith) in
    let (c, ec) = get_elem?-some bytes (offset + 2) (omega arith) in
    let (d, ed) = get_elem?-some bytes (offset + 3) (omega arith) in
    (join_u32 a b c d, read_u32_of bytes offset a b c d ea eb ec ed)
