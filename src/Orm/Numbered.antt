-- ===== src/Orm/Numbered.antt =====
-- The lists in the repository's INSERT: the columns' names and the numbered placeholders.
use hft_legacy_migration_fra.Base.{
  ℕ, zero, suc, ◌≡◌, refl, ap, ap₂, ◌∙◌, inl, inr, Bytes, true, false, List, [], ◌∷◌, ◌++◌, codes,
  map, length, Bool-cases,
}
use hft_legacy_migration_fra.Catalog.Ddl.{joined}
use hft_legacy_migration_fra.Sybase.Placeholders.{placeholder}
use hft_legacy_migration_fra.Orm.Field.{Field}
use hft_legacy_migration_fra.Orm.Repository.{join, columns, placeholders, insert_sql}

-- `$1`, `$2` and so on, so many from a number on.
unfoldable pub numbered : ℕ → ℕ → List Bytes
numbered index zero = []
numbered index (suc n) = placeholder index ∷ numbered (suc index) n

-- The fields that are not the primary key, in their order.
unfoldable pub kept : List Field → List Field
kept [] = []
kept (f ∷ fs) = elim f.is_key [ true ↦ kept fs | false ↦ f ∷ kept fs ]

pub placeholders-numbered :
    (index : ℕ) (fs : List Field)
    → placeholders index fs ≡ numbered index (length (placeholders index fs))
unfolding placeholders numbered
placeholders-numbered index [] = refl
placeholders-numbered index (f ∷ fs) = elim (Bool-cases f.is_key) [
  | inl key ↦ rw key (placeholders-numbered index fs)
  | inr other ↦ rw other (ap (◌∷◌ (placeholder index)) (placeholders-numbered (suc index) fs))
]

pub placeholders-kept :
    (index : ℕ) (fs : List Field) → placeholders index fs ≡ numbered index (length (kept fs))
unfolding placeholders numbered kept
placeholders-kept index [] = refl
placeholders-kept index (f ∷ fs) = elim (Bool-cases f.is_key) [
  | inl key ↦ rw key (placeholders-kept index fs)
  | inr other ↦ rw other (ap (◌∷◌ (placeholder index)) (placeholders-kept (suc index) fs))
]

columns-kept : (fs : List Field) → columns fs ≡ map (λ f. f.name) (kept fs)
unfolding columns kept
columns-kept [] = refl
columns-kept (f ∷ fs) = elim (Bool-cases f.is_key) [
  | inl key ↦ rw key (columns-kept fs)
  | inr other ↦ rw other (ap (◌∷◌ f.name) (columns-kept fs))
]

join-joined : (texts : List Bytes) → join texts ≡ joined (codes ", ") texts
unfolding join joined
join-joined [] = refl
join-joined (text ∷ []) = refl
join-joined (text ∷ next ∷ texts) =
    ap (λ (t : Bytes). text ++ (codes ", " ++ t)) (join-joined (next ∷ texts))

-- `INSERT INTO t (a, b) VALUES ($1, $2)`, with the names of all fields but the primary key.
abbrev pub insert_form : Bytes → List Field → Bytes
insert_form table fs =
    codes "INSERT INTO "
    ++ (table
        ++ (codes " ("
            ++ (joined (codes ", ") (map (λ f. f.name) (kept fs))
                ++ (codes ") VALUES ("
                    ++ (joined (codes ", ") (numbered 1 (length (kept fs))) ++ codes ")")))))

pub insert_sql-insert_form :
    (table : Bytes) (fs : List Field) → insert_sql table fs ≡ insert_form table fs
unfolding insert_sql
insert_sql-insert_form table fs =
    ap₂
      (λ (names values : Bytes).
        codes "INSERT INTO "
        ++ (table ++ (codes " (" ++ (names ++ (codes ") VALUES (" ++ (values ++ codes ")"))))))
      (ap join (columns-kept fs) ∙ join-joined (map (λ f. f.name) (kept fs)))
      (ap join (placeholders-kept 1 fs) ∙ join-joined (numbered 1 (length (kept fs))))
