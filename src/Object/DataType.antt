-- ===== src/Object/DataType.antt =====
-- src/object/data_type.rs: the types of properties and the size of their static part.
use isar_core.Prelude.{ℕ, Bool, true, false, not, ◌==◌, ◌≡◌, arith, ◌<◌}

pub data DataType : Type 0 where
  byte int float long double string : DataType
  byte_list int_list float_list long_list double_list string_list : DataType

-- The discriminants, by which the derived `==` compares.
unfoldable pub ordinal : DataType → ℕ
ordinal byte = 0
ordinal int = 1
ordinal float = 2
ordinal long = 3
ordinal double = 4
ordinal string = 5
ordinal byte_list = 6
ordinal int_list = 7
ordinal float_list = 8
ordinal long_list = 9
ordinal double_list = 10
ordinal string_list = 11

unfoldable pub is_type : DataType → DataType → Bool
unfolding ordinal
is_type a b = ordinal a == ordinal b

unfoldable pub is_static : DataType → Bool
is_static byte = true
is_static int = true
is_static float = true
is_static long = true
is_static double = true
is_static _ = false

unfoldable pub is_dynamic : DataType → Bool
unfolding is_static
is_dynamic t = not (is_static t)

unfoldable pub get_static_size : DataType → ℕ
get_static_size byte = 1
get_static_size int = 4
get_static_size float = 4
get_static_size _ = 8

pub is_type_refl : (t : DataType) → is_type t t ≡ true
unfolding is_type
is_type_refl t = ground arith

pub get_static_size-pos : (t : DataType) → 0 < get_static_size t
unfolding get_static_size
get_static_size-pos byte = omega arith
get_static_size-pos int = omega arith
get_static_size-pos float = omega arith
get_static_size-pos _ = omega arith
