-- ===== src/Index/IndexKey/Strings.antt =====
-- Keys that differ in a short string are ordered as the strings are, with the null string first.
use isar_core.Prelude.{ℕ, ◌<◌, ◌≡◌, refl, arith}
use isar_core.Prelude.{true, Option, none, some, [], ◌∷◌, ◌++◌, length, All}
use isar_core.Prelude.Bytes.{Bytes, compare_bytes, compare_bytes-append_same, then_compare}
use isar_core.Object.IsarObject.Compare.{compare_strings}
use isar_core.Index.Hashing.{Hashing, Unicode}
use isar_core.Index.Types.{max_string_index_size}
use isar_core.Index.IndexKey.{IndexKey, add_string_value, with_case}
use mathlib.Core.List.{append_assoc}

-- A string whose whole text is in a key: it is short, and it does not hold the byte that ends it.
abbrev pub IsShort : Bytes → Type 0
IsShort s = (length s < max_string_index_size) × All (λ (b : ℕ). 0 < b) s

-- The byte 0 behind a string is below all bytes of strings.
compare_bytes-ended :
    (s t xs ys : Bytes)
    → All (λ (b : ℕ). 0 < b) s
    → All (λ (b : ℕ). 0 < b) t
    → compare_bytes (s ++ 0 ∷ xs) (t ++ 0 ∷ ys)
      ≡ then_compare (compare_bytes s t) (compare_bytes xs ys)
unfolding compare_bytes
compare_bytes-ended [] [] xs ys hs ht = refl
compare_bytes-ended [] (y ∷ t) xs ys hs ht = ground (arith, ht.0)
compare_bytes-ended (x ∷ s) [] xs ys hs ht = ground (arith, hs.0)
compare_bytes-ended (x ∷ s) (y ∷ t) xs ys hs ht =
    ground (arith, compare_bytes-ended s t xs ys (hs.1) (ht.1))

abbrev pub ShortOption : Option Bytes → Type 0
ShortOption none = Unit {0}
ShortOption (some s) = IsShort s

-- What `add_string_value` adds for a short string.
abbrev value_bytes : Option Bytes → Bytes
value_bytes none = 0 ∷ []
value_bytes (some s) = 1 ∷ s ++ 0 ∷ []

pub add_string_value-short :
    (u : Unicode) (h : Hashing) (key : IndexKey) (s : Option Bytes)
    → ShortOption s
    → (add_string_value u h key s true).bytes ≡ key.bytes ++ value_bytes s
unfolding add_string_value with_case
add_string_value-short u h key none hs = refl
add_string_value-short u h key (some s) hs = ground (arith, hs.0)

compare-value_bytes :
    (s t : Option Bytes) (xs ys : Bytes)
    → ShortOption s
    → ShortOption t
    → compare_bytes (value_bytes s ++ xs) (value_bytes t ++ ys)
      ≡ then_compare (compare_strings s t) (compare_bytes xs ys)
unfolding compare_strings compare_bytes
compare-value_bytes none none xs ys hs ht = refl
compare-value_bytes none (some t) xs ys hs ht = refl
compare-value_bytes (some s) none xs ys hs ht = refl
compare-value_bytes (some s) (some t) xs ys hs ht =
    rw (append_assoc s (0 ∷ []) xs, append_assoc t (0 ∷ []) ys)
      (compare_bytes-ended s t xs ys (hs.1) (ht.1))

-- The value key of a case-sensitive index compares two short strings, or null, as they compare, and
-- what follows them decides a tie.
pub compare-add_string_value :
    (u : Unicode) (h : Hashing) (key : IndexKey) (s t : Option Bytes) (xs ys : Bytes)
    → ShortOption s
    → ShortOption t
    → compare_bytes
        ((add_string_value u h key s true).bytes ++ xs)
        ((add_string_value u h key t true).bytes ++ ys)
      ≡ then_compare (compare_strings s t) (compare_bytes xs ys)
compare-add_string_value u h key s t xs ys hs ht =
    rw
      (
        add_string_value-short u h key s hs,
        add_string_value-short u h key t ht,
        append_assoc (key.bytes) (value_bytes s) xs,
        append_assoc (key.bytes) (value_bytes t) ys,
        compare_bytes-append_same (key.bytes) (value_bytes s ++ xs) (value_bytes t ++ ys),
      )
      (compare-value_bytes s t xs ys hs ht)
