-- ===== src/Values/Numbers.antt =====
-- `std::stoi` on what `std::to_string` printed.
use hft_legacy_migration_fra.Base.{
  ℕ, zero, suc, ◌+◌, ◌*◌, ◌/◌, ◌%◌, ◌^◌, ◌<◌, ◌≡◌, ◌≢◌, refl, ap, ◌∙◌, inl, inr, Bytes, true, [],
  ◌∷◌, some, ok, ltb, to_string, digits_from, arith, Bool-cases,
}
use hft_legacy_migration_fra.Base.Int.{ℤ, pos, negsuc}
use hft_legacy_migration_fra.Catalog.Types.{print_int}
use hft_legacy_migration_fra.Values.{
  is_digit, read_digits, magnitude, positive, negative, signed, stoi,
}

-- The range of an `int`.
abbrev pub InRange : ℤ → Type 0
InRange (pos n) = n < 2 ^ 31
InRange (negsuc n) = n < 2 ^ 31

read_one :
    (k d : ℕ) (out : Bytes)
    → d < 10
    → read_digits k ((b'0' + d) ∷ out) ≡ read_digits (k * 10 + d) out
unfolding read_digits
read_one k d out h = ground arith

magnitude_digit :
    (d : ℕ) (out : Bytes) → d < 10 → magnitude ((b'0' + d) ∷ out) ≡ some (read_digits d out)
unfolding magnitude read_digits
magnitude_digit d out h = ground arith

magnitude-digits_from :
    (f n : ℕ) (out : Bytes) → n < f → magnitude (digits_from f n out) ≡ some (read_digits n out)
unfolding digits_from
magnitude-digits_from zero n out h = absurd (omega (arith, h))
magnitude-digits_from (suc f) n out h = elim (Bool-cases (ltb n 10)) [
  | inl small ↦ rw small (magnitude_digit n out (ground arith))
  | inr large ↦ rw large (
      magnitude-digits_from f (n / 10) ((b'0' + n % 10) ∷ out) (ground arith)
      ∙ ap some (read_one (n / 10) (n % 10) out (omega arith))
      ∙ ap (λ k. some (read_digits k out)) (omega arith))
]

pub magnitude-to_string : (n : ℕ) → magnitude (to_string n) ≡ some n
unfolding to_string
magnitude-to_string n =
    magnitude-digits_from (suc n) n [] (omega arith) ∙ unfold read_digits in refl

no_digits : (n : ℕ) → magnitude [] ≢ some n
unfolding magnitude
no_digits n h = cc

first_digit : (c : ℕ) (text : Bytes) (n : ℕ) → magnitude (c ∷ text) ≡ some n → is_digit c ≡ true
unfolding magnitude
first_digit c text n h = ground arith

stoi-magnitude : (text : Bytes) (n : ℕ) → magnitude text ≡ some n → stoi text ≡ positive (some n)
unfolding stoi signed
stoi-magnitude [] n h = absurd (no_digits n h)
stoi-magnitude (c ∷ text) n h = ground (arith, first_digit c text n h, h)

stoi_minus :
    (text : Bytes) (n : ℕ) → magnitude text ≡ some n → stoi (b'-' ∷ text) ≡ negative (some n)
unfolding stoi signed
stoi_minus text n h = rw h refl

-- Every `int` is read back by `std::stoi` from what `std::to_string` made of it.
pub stoi-print_int : (n : ℤ) → InRange n → stoi (print_int n) ≡ ok n
unfolding print_int
stoi-print_int (pos n) h =
    stoi-magnitude (to_string n) n (magnitude-to_string n) ∙ unfold positive in ground arith
stoi-print_int (negsuc n) h =
    stoi_minus (to_string (suc n)) (suc n) (magnitude-to_string (suc n))
    ∙ unfold negative in ground arith
