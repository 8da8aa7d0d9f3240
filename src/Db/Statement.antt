-- ===== src/Db/Statement.antt =====
-- What the statements of include/hft/db/IStatement.h share: the parameters, and the vector of texts
-- in which the classes of src/db keep them.
use hft_legacy_migration_fra.Base.{
  ℕ, zero, suc, ◌≡◌, refl, ap, Bytes, Bool, false, List, [], ◌∷◌, ◌++◌, Option, none, some, ltb,
  ◌==◌, if◌then◌else◌, length, ◌-◌, ◌^◌,
}
use hft_legacy_migration_fra.Base.Int.{ℤ, pos, negsuc, to_u32}
use hft_legacy_migration_fra.Values.{is_space, magnitude}

-- The argument of `bindInt`, `bindLong`, `bindDouble` and `bindString`, and `bindNull`. A double is
-- known by the text that `std::to_string` makes of it.
pub data Param : Type 0 where
  int_param : ℤ → Param
  long_param : ℤ → Param
  double_param : Bytes → Param
  string_param : Bytes → Param
  null_param : Param

-- `if (index > v.size()) v.resize(index); v[index - 1] = x;`, by the position `index - 1`. What
-- `resize` adds is `fill`.
unfoldable pub put_at {ℓ} : {A : Type ℓ} → A → ℕ → A → List A → List A
put_at fill zero x [] = x ∷ []
put_at fill zero x (y ∷ ys) = x ∷ ys
put_at fill (suc i) x [] = fill ∷ put_at fill i x []
put_at fill (suc i) x (y ∷ ys) = y ∷ put_at fill i x ys

pub put_at-length {ℓ} :
    {A : Type ℓ} (fill x : A) (xs : List A) → put_at fill (length xs) x xs ≡ xs ++ x ∷ []
unfolding put_at
put_at-length fill x [] = refl
put_at-length fill x (y ∷ ys) = ap (◌∷◌ y) (put_at-length fill x ys)

abbrev digits_or_zero : Option ℕ → ℕ
digits_or_zero none = 0
digits_or_zero (some n) = n

abbrev negated : ℕ → ℤ
negated zero = pos 0
negated (suc n) = negsuc n

abbrev signed_or_zero : Bytes → ℤ
signed_or_zero [] = pos 0
signed_or_zero (c ∷ text) =
    if c == b'-'
    then negated (digits_or_zero (magnitude text))
    else if c == b'+'
    then pos (digits_or_zero (magnitude text))
    else pos (digits_or_zero (magnitude (c ∷ text)))

-- `std::atoi` and `std::atoll`: what does not begin with a number is zero. A number beyond the type's
-- range, for which C defines no result, stays what it is.
unfoldable pub atoi : Bytes → ℤ
atoi [] = pos 0
atoi (c ∷ text) = let rest = atoi text in if is_space c then rest else signed_or_zero (c ∷ text)

-- The conversion of a number to `int32_t`, which keeps 32 bits.
unfoldable pub to_i32 : ℤ → ℤ
to_i32 n = let low = to_u32 n in if ltb low (2 ^ 31) then pos low else negsuc (2 ^ 32 - 1 - low)

abbrev pub is_positive : ℤ → Bool
is_positive (pos n) = ltb 0 n
is_positive (negsuc n) = false
