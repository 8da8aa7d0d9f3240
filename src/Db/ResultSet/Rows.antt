-- ===== src/Db/ResultSet/Rows.antt =====
-- What the loops over a result set see of it.
use hft_legacy_migration_fra.Base.{
  ℕ, zero, suc, ◌<◌, ◌≡◌, refl, ap, Bytes, true, false, List, [], ◌∷◌, map, Option, none, some, ltb,
  length, drop, lt→ltb, ltb→lt, arith, if◌then◌else◌,
}
use hft_legacy_migration_fra.Values.{Row}
use hft_legacy_migration_fra.Db.ResultSet.{
  Cursor, PgResultSet, pg_cursor, pg_row, pg_construct, SybResultSet, syb_cursor, Fetch, is_regular,
  fetch_next, collect, first, row_or_nulls,
}

-- The rows that a cursor has yet to show: `next` takes the first of them, and says when there is none.
pub record Shows {State : Type 0} (cursor : Cursor State) : Type 0 where
  pub left : State → List Row
  pub at_end : (s : State) → left s ≡ [] → (cursor.next s).0 ≡ false
  pub moves :
      (s : State) (row : Row) (rows : List Row)
      → left s ≡ row ∷ rows
      → ((cursor.next s).0 ≡ true)
        × (cursor.current (cursor.next s).1 ≡ row)
        × (left (cursor.next s).1 ≡ rows)

abbrev pub head {ℓ} : {A : Type ℓ} → List A → Option A
head [] = none
head (x ∷ xs) = some x

module _ {State : Type 0} (cursor : Cursor State) (shows : Shows cursor) {A : Type 0}
    (read : Row → A) where
  collect-rows :
      (rows : List Row) (fuel : ℕ) (s : State)
      → shows.left s ≡ rows
      → length rows < fuel
      → collect cursor read fuel s ≡ map read rows
  unfolding collect
  collect-rows rows zero s h k = absurd (omega arith)
  collect-rows [] (suc fuel) s h k = rw (shows.at_end s h) refl
  collect-rows (row ∷ rows) (suc fuel) s h k =
      let (more, shown, rest) = shows.moves s row rows h in
      rw (more, shown)
        (ap (◌∷◌ (read row)) (collect-rows rows fuel (cursor.next s).1 rest (omega arith)))

  first-rows :
      (rows : List Row) (s : State)
      → shows.left s ≡ rows
      → first cursor read s ≡ head (map read rows)
  unfolding first
  first-rows [] s h = rw (shows.at_end s h) refl
  first-rows (row ∷ rows) s h =
      let (more, shown, rest) = shows.moves s row rows h in rw (more, shown) refl

  -- The body of the loop over a result set runs once for each row that the cursor has left, in their
  -- order, and one more round than there are rows is enough for the loop to end.
  pub collect-left :
      (fuel : ℕ) (s : State)
      → length (shows.left s) < fuel
      → collect cursor read fuel s ≡ map read (shows.left s)
  collect-left fuel s h = collect-rows (shows.left s) fuel s refl h

  pub first-left : (s : State) → first cursor read s ≡ head (map read (shows.left s))
  first-left s = first-rows (shows.left s) s refl

pg_left : PgResultSet → List Row
pg_left r = drop r.next_row r.rows

drop-cons :
    (i : ℕ) (rows : List Row) (row : Row) (rest : List Row)
    → drop i rows ≡ row ∷ rest
    → (ltb i (length rows) ≡ true) × (pg_row (suc i) rows ≡ row) × (drop (suc i) rows ≡ rest)
unfolding pg_row row_or_nulls
drop-cons zero [] row rest h = cc
drop-cons (suc i) [] row rest h = cc
drop-cons zero (x ∷ xs) row rest h = (lt→ltb _ _ (omega arith), cc, cc)
drop-cons (suc i) (x ∷ xs) row rest h =
    let (more, shown, left) = drop-cons i xs row rest h in
    (lt→ltb _ _ (omega (arith, ltb→lt i (length xs) more)), shown, left)

drop-nil : (i : ℕ) (rows : List Row) → drop i rows ≡ [] → ltb i (length rows) ≡ false
drop-nil zero [] h = ground arith
drop-nil (suc i) [] h = ground arith
drop-nil zero (x ∷ xs) h = absurd cc
drop-nil (suc i) (x ∷ xs) h = ground (arith, drop-nil i xs h)

pub pg-Shows : Shows pg_cursor
unfolding pg_cursor pg_left
pg-Shows = record {
  left = pg_left;
  at_end = λ r h. drop-nil r.next_row r.rows h;
  moves = λ r row rows h. drop-cons r.next_row r.rows row rows h;
}

-- The rows before the first answer of `dbnextrow` other than REG_ROW.
unfoldable pub regular : List Fetch → List Row
unfolding is_regular
regular [] = []
regular (f ∷ fs) = let rest = f.data_row ∷ regular fs in if is_regular f.code then rest else []

syb_end : (fs : List Fetch) (s : SybResultSet) → regular fs ≡ [] → (fetch_next fs s).0 ≡ false
unfolding fetch_next regular
syb_end [] s h = refl
syb_end (f ∷ fs) s h = ground arith

syb_moves :
    (fs : List Fetch) (s : SybResultSet) (row : Row) (rows : List Row)
    → regular fs ≡ row ∷ rows
    → ((fetch_next fs s).0 ≡ true)
      × ((fetch_next fs s).1.data_row ≡ row)
      × (regular (fetch_next fs s).1.fetches ≡ rows)
unfolding fetch_next regular
syb_moves [] s row rows h = absurd cc
syb_moves (f ∷ fs) s row rows h = ground arith

pub syb-Shows : Shows syb_cursor
unfolding syb_cursor
syb-Shows = record {
  left = λ s. regular s.fetches;
  at_end = λ s h. syb_end s.fetches s h;
  moves = λ s row rows h. syb_moves s.fetches s row rows h;
}

pub pg-opens :
    (columns : List Bytes) (rows : List Row) → pg-Shows.left (pg_construct columns rows) ≡ rows
unfolding pg-Shows pg_left pg_construct
pg-opens columns rows = refl

pub collect-regular :
    {A : Type 0} (read : Row → A) (fuel : ℕ) (s : SybResultSet)
    → length (regular s.fetches) < fuel
    → collect syb_cursor read fuel s ≡ map read (regular s.fetches)
unfolding syb-Shows
collect-regular read fuel s h = collect-left syb_cursor syb-Shows read fuel s h
