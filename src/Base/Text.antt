-- ===== src/Base/Text.antt =====
-- Texts as lists of bytes: literals, equality, the search of `std::string::find`, lower case and
-- the decimal print of `std::to_string`.
use Prim.Native.Char.{code}
use Prim.Native.Nat.{ℕ, zero, suc, ◌+◌, ◌-◌, ◌/◌, ◌%◌}
use Prim.Native.String.{String}
use mathlib.Core.Bool.{Bool, true, false, ◌&&◌, ◌||◌}
use mathlib.Core.List.{List, [], ◌∷◌, ◌++◌}
use mathlib.Core.Logic.{◌↔◌}
use mathlib.Core.Path.{◌≡◌, refl}
use native.Mathlib.Omega.{arith}
use hft_legacy_migration_fra.Base.Tests.{ltb, leb, ◌==◌, if◌then◌else◌}

abbrev pub Bytes : Type 0
Bytes = List ℕ

-- The code points of a literal: its bytes, since the literals of the source are ASCII.
abbrev pub codes : String → Bytes
codes String.[] = []
codes (String.◌∷◌ c s) = code c ∷ codes s

-- `std::string::operator==`.
unfoldable pub eqb : Bytes → Bytes → Bool
eqb [] [] = true
eqb [] (d ∷ t) = false
eqb (c ∷ s) [] = false
eqb (c ∷ s) (d ∷ t) = c == d && eqb s t

pub eqb_sound : (s t : Bytes) → eqb s t ≡ true → s ≡ t
unfolding eqb
eqb_sound [] [] h = refl
eqb_sound [] (d ∷ t) h = cc
eqb_sound (c ∷ s) [] h = cc
eqb_sound (c ∷ s) (d ∷ t) h = ground (arith, eqb_sound s t)

pub eqb_refl : (s : Bytes) → eqb s s ≡ true
unfolding eqb
eqb_refl [] = refl
eqb_refl (c ∷ s) = ground (arith, eqb_refl s)

pub eqb_iff : (s t : Bytes) → (eqb s t ≡ true) ↔ (s ≡ t)
eqb_iff s t = (eqb_sound s t, λ e. rw e (eqb_refl t))

-- `text.compare(0, needle.size(), needle) == 0`.
unfoldable pub starts_with : Bytes → Bytes → Bool
starts_with [] text = true
starts_with (c ∷ needle) [] = false
starts_with (c ∷ needle) (d ∷ text) = c == d && starts_with needle text

-- `text.find(needle) != std::string::npos`.
unfoldable pub contains : Bytes → Bytes → Bool
unfolding starts_with
contains needle [] = starts_with needle []
contains needle (d ∷ text) = starts_with needle (d ∷ text) || contains needle text

-- `std::toupper` and `::tolower` in the C locale.
abbrev pub to_upper : ℕ → ℕ
to_upper c = if leb b'a' c && leb c b'z' then c - 32 else c

abbrev pub to_lower : ℕ → ℕ
to_lower c = if leb b'A' c && leb c b'Z' then c + 32 else c

-- A longer needle that begins with a shorter one is found only where that is.
pub starts_with-append :
    (needle more text : Bytes)
    → starts_with (needle ++ more) text ≡ true
    → starts_with needle text ≡ true
unfolding starts_with
starts_with-append [] more text h = refl
starts_with-append (c ∷ needle) more [] h = cc
starts_with-append (c ∷ needle) more (d ∷ text) h =
    ground (arith, starts_with-append needle more text)

pub contains_of_starts_with :
    (needle text : Bytes) → starts_with needle text ≡ true → contains needle text ≡ true
unfolding contains
contains_of_starts_with needle [] h = h
contains_of_starts_with needle (d ∷ text) h = ground arith

-- If a text holds a needle, it holds every piece of the needle.
pub contains_drop_front :
    (c : ℕ) (needle text : Bytes) → contains (c ∷ needle) text ≡ true → contains needle text ≡ true
unfolding contains starts_with
contains_drop_front c needle [] h = cc
contains_drop_front c needle (d ∷ text) h =
    ground (arith, contains_drop_front c needle text, contains_of_starts_with needle text)

pub contains_prefix :
    (needle more text : Bytes) → contains (needle ++ more) text ≡ true → contains needle text ≡ true
unfolding contains
contains_prefix needle more [] h = starts_with-append needle more [] h
contains_prefix needle more (d ∷ text) h =
    ground (arith, starts_with-append needle more (d ∷ text), contains_prefix needle more text)

-- The decimal digits of a number, on fuel; a number below the fuel is printed whole.
unfoldable pub digits_from : ℕ → ℕ → Bytes → Bytes
digits_from zero n out = out
digits_from (suc f) n out =
    let more = digits_from f (n / 10) ((b'0' + n % 10) ∷ out) in
    if ltb n 10 then (b'0' + n) ∷ out else more

-- `std::to_string` of a value that is not negative.
unfoldable pub to_string : ℕ → Bytes
unfolding digits_from
to_string n = digits_from (suc n) n []
