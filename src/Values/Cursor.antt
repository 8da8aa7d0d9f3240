-- ===== src/Values/Cursor.antt =====
-- The reader's loop sees every row of the result once, in order.
use hft_legacy_migration_fra.Base.{
  ℕ, zero, suc, ◌+◌, ◌<◌, ◌≤◌, ◌≡◌, refl, ap, sym, List, [], ◌∷◌, some, ok, ltb, length, get_elem?,
  drop, arith, Bool-cases, inl, inr,
}
use hft_legacy_migration_fra.Values.{Row, Reader, open_reader, next, current_row, read_loop}

get-drop :
    (xs : List Row) (i : ℕ)
    → i < length xs
    → (x : Row) × (get_elem? xs i ≡ some x) × (drop i xs ≡ x ∷ drop (suc i) xs)
get-drop [] i h = absurd (omega arith)
get-drop (x ∷ xs) zero h = (x, refl, refl)
get-drop (x ∷ xs) (suc i) h = get-drop xs i (omega arith)

drop_all : (xs : List Row) (i : ℕ) → length xs ≤ i → drop i xs ≡ []
drop_all [] zero h = refl
drop_all [] (suc i) h = refl
drop_all (x ∷ xs) zero h = absurd (omega arith)
drop_all (x ∷ xs) (suc i) h = drop_all xs i (omega arith)

read_loop-drop :
    (fuel : ℕ) (r : Reader)
    → length r.rows < fuel + r.next_row
    → read_loop fuel r ≡ ok (drop r.next_row r.rows)
unfolding read_loop next current_row
read_loop-drop zero r h = ap ok (sym (drop_all r.rows r.next_row (omega arith)))
read_loop-drop (suc fuel) r h = elim (Bool-cases (ltb r.next_row (length r.rows))) [
  | inl more ↦
      let (x, got, rest) = get-drop r.rows r.next_row (ground arith) in
      let later =
        read_loop-drop fuel (record r { next_row = suc r.next_row; row = some x }) (omega arith) in
      ground (arith, got, rest, later)
  | inr end ↦ ground (arith, drop_all r.rows r.next_row)
]

-- The body of `while (reader->next())` runs once for each row of the result, in their order, and
-- `row()` never throws there; the loop ends, as one more round than there are rows is enough.
pub read_loop-open_reader :
    (rows : List Row) (fuel : ℕ) → length rows < fuel → read_loop fuel (open_reader rows) ≡ ok rows
unfolding open_reader
read_loop-open_reader rows fuel h = read_loop-drop fuel (open_reader rows) (omega arith)
