-- ===== src/Orm/Field.antt =====
-- Reflection of an entity, include/hft/reflection/EntityTraits.h: `forEachField` calls its function
-- with each field in turn, which is the list of them.
use hft_legacy_migration_fra.Base.{Bytes, Bool}
use hft_legacy_migration_fra.Base.Int.{ℤ}

pub data FieldType : Type 0 where
  int32 int64 double string bool : FieldType

-- A member by its C++ type. A double is known by the text that `std::to_string` makes of it.
pub data Member : Type 0 where
  int32_member : ℤ → Member
  int64_member : ℤ → Member
  double_member : Bytes → Member
  string_member : Bytes → Member
  bool_member : Bool → Member
  -- of any other type
  other_member : Member

-- The arguments of `forEachField`'s function, with what `ptr` points to.
pub record Field : Type 0 where
  pub name : Bytes
  pub member : Member
  pub is_key : Bool
  pub is_nullable : Bool

unfoldable pub field_type : Member → FieldType
field_type (int32_member n) = int32
field_type (int64_member n) = int64
field_type (double_member printed) = double
field_type (string_member s) = string
field_type (bool_member b) = bool
field_type other_member = string
