-- ===== src/Query/Filter/Bounds.antt =====
-- The ranges of floats and strings against the order of null-first values.
use isar_core.Prelude.{ℕ, ◌^◌, ◌≡◌, refl, ap, arith, is_le}
use isar_core.Prelude.{
  Bool, true, false, not, ◌&&◌, ◌||◌, if◌then◌else◌, Option, none, some, [], ◌∷◌,
}
use isar_core.Prelude.Bytes.{Bytes, compare_bytes}
use isar_core.Object.Float.{float_le}
use isar_core.Error.{Result, ok, err, panic, ◌>>=◌}
use isar_core.Lmdb.Cursor.{Lmdb}
use isar_core.Object.ObjectInfo.{Property}
use isar_core.Object.IsarObject.{
  IsarObject, is_nan_f32, is_nan_f64, read_double, read_float, read_string,
}
use isar_core.Index.Hashing.{Unicode}
use isar_core.Query.Filter.{
  float_between, double_between, string_between, string_starts_with, cased,
}
use isar_core.Query.Filter.Evaluate.{
  FilterCursors, with_cursors, evaluate, between_floats, between_strings, match_string, starts_with,
}

bind_cong :
    {A B : Type 0} (r : Result A) (f g : A → Result B)
    → ((a : A) → f a ≡ g a)
    → (r >>= f) ≡ (r >>= g)
bind_cong (ok a) f g h = h a
bind_cong (err e) f g h = refl
bind_cong panic f g h = refl

-- "At most", with NaN, which is null, below all other floats.
abbrev pub nan_first_le : (ℕ → Bool) → ℕ → ℕ → ℕ → Bool
nan_first_le is_nan half a b = is_nan a || (not (is_nan b) && float_le half a b)

pub between_floats-nan_first_le :
    (is_nan : ℕ → Bool) (half lower upper val : ℕ)
    → between_floats is_nan half lower upper val
      ≡ (nan_first_le is_nan half lower val && nan_first_le is_nan half val upper)
unfolding between_floats
between_floats-nan_first_le is_nan half lower upper val =
    by_nan (is_nan lower) (is_nan upper) (is_nan val) (float_le half lower val)
      (float_le half val upper)
  where
    by_nan :
        (l u v a b : Bool)
        → (if u then l && v else (if l then (not v && b) || v else (not v && a) && (not v && b)))
          ≡ ((l || (not v && a)) && (v || (not u && b)))
    by_nan l u v a b = ground arith

-- A range of doubles, or of floats, takes an object exactly when the property is at least the lower bound
-- and at most the upper one in the order of the floating-point numbers with NaN, the null value, below all
-- of them. As in that order, the two zeros are equal.
pub evaluate-nan_first_le :
    (u : Unicode) (l : Lmdb) (rounds : ℕ) (object : IsarObject) (p : Property) (lower upper : ℕ)
    (cursors : Option FilterCursors)
    → (evaluate u l rounds (double_between p lower upper) object cursors
        ≡ with_cursors cursors (
            read_double object p >>= λ val. ok (
              nan_first_le is_nan_f64 (2 ^ 63) lower val
              && nan_first_le is_nan_f64 (2 ^ 63) val upper)))
      × (evaluate u l rounds (float_between p lower upper) object cursors
          ≡ with_cursors cursors (
              read_float object p >>= λ val. ok (
                nan_first_le is_nan_f32 (2 ^ 31) lower val
                && nan_first_le is_nan_f32 (2 ^ 31) val upper)))
unfolding evaluate
evaluate-nan_first_le u l rounds object p lower upper cursors = (
  ap (with_cursors cursors) (
      bind_cong (read_double object p) _ _
        (λ val. ap ok (between_floats-nan_first_le is_nan_f64 (2 ^ 63) lower upper val))),
  ap (with_cursors cursors) (
      bind_cong (read_float object p) _ _
        (λ val. ap ok (between_floats-nan_first_le is_nan_f32 (2 ^ 31) lower upper val))),
)

-- "At most", with the null string below all others.
abbrev pub null_first_le : Option Bytes → Option Bytes → Bool
null_first_le none b = true
null_first_le (some a) none = false
null_first_le (some a) (some b) = is_le (compare_bytes a b)

between_strings-some :
    (lower : Bytes) (upper other : Option Bytes)
    → between_strings (some lower) upper other
      ≡ (null_first_le (some lower) other && null_first_le other upper)
unfolding between_strings
between_strings-some lower none none = refl
between_strings-some lower (some upper) none = refl
between_strings-some lower none (some other) = by_test (is_le (compare_bytes lower other))
  where
    by_test : (b : Bool) → false ≡ (b && false)
    by_test true = refl
    by_test false = refl
between_strings-some lower (some upper) (some other) = refl

-- Without a lower bound, and with any upper bound, all strings are taken, and null is not.
between_strings-none :
    (upper : Bytes) (value : Option Bytes)
    → ok (between_strings none (some upper) value)
      ≡ match_string (λ other prefix. ok (starts_with other prefix)) (some []) value
unfolding between_strings match_string starts_with
between_strings-none upper none = refl
between_strings-none upper (some []) = refl
between_strings-none upper (some (c ∷ value)) = refl

-- A range of strings with a lower bound takes an object exactly when the string is in the range, where null is
-- below all strings. A range without a lower bound but with an upper one takes, whatever the upper bound is,
-- exactly the objects that the condition takes by which the string starts with the empty string.
pub evaluate-null_first_le :
    (u : Unicode) (l : Lmdb) (rounds : ℕ) (object : IsarObject) (p : Property)
    (upper : Option Bytes) (case_sensitive : Bool) (cursors : Option FilterCursors)
    → ((lower : Bytes)
        → evaluate u l rounds (string_between p (some lower) upper case_sensitive) object cursors
          ≡ with_cursors cursors (
              read_string object p >>= λ value. ok (
                null_first_le (some lower) (cased u case_sensitive value)
                && null_first_le (cased u case_sensitive value) upper)))
      × ((bound : Bytes)
          → evaluate u l rounds (string_between p none (some bound) case_sensitive) object cursors
            ≡ evaluate u l rounds (string_starts_with p (some []) case_sensitive) object cursors)
unfolding evaluate
evaluate-null_first_le u l rounds object p upper case_sensitive cursors = (
  λ lower. ap (with_cursors cursors) (
      bind_cong (read_string object p) _ _
        (λ value. ap ok (between_strings-some lower upper (cased u case_sensitive value)))),
  λ bound. ap (with_cursors cursors) (
      bind_cong (read_string object p) _ _
        (λ value. between_strings-none bound (cased u case_sensitive value))),
)
