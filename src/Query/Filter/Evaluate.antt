-- ===== src/Query/Filter/Evaluate.antt =====
-- src/query/filter.rs: whether an object meets a condition. The cursors of objects and links, where there
-- are any, come back with the answer. Out of rounds is a panic.
use isar_core.Prelude.{
  ℕ, ◌-◌, ◌^◌, leb, ◌==◌, ◌&&◌, ◌||◌, Bool, true, false, not, any, if◌then◌else◌, Option, none,
  some, List, [], ◌∷◌, length, drop, is_le, is_eq,
}
use isar_core.Prelude.Int.{leb_ℤ, eqb_ℤ}
use isar_core.Prelude.Bytes.{Bytes, compare_bytes}
use isar_core.Error.{Result, ok, err, ◌>>=◌, unwrap, version_error}
use isar_core.Lmdb.Cursor.{Lmdb, Cursor}
use isar_core.Object.ObjectInfo.{Property}
use isar_core.Object.Float.{float_le}
use isar_core.Object.IsarObject.{
  IsarObject, is_nan_f32, is_nan_f64, read_byte, read_int, read_long, read_float, read_double,
  read_string, read_byte_list, read_int_list, read_long_list, read_string_list,
}
use isar_core.Index.Hashing.{Unicode}
use isar_core.Link.{iter}
use isar_core.Query.FastWildMatch.{fast_wild_match}
use isar_core.Query.Filter.{
  Filter, byte_between, int_between, long_between, float_between, double_between,
  byte_list_contains, int_list_contains, long_list_contains, string_between, string_starts_with,
  string_ends_with, string_matches, string_list_contains, and_cond, or_cond, not_cond, static_cond,
  link_cond, Filters, nil, cons, cased,
}

-- `lower <= val && upper >= val` of floats, with the branches for NaN.
unfoldable pub between_floats : (ℕ → Bool) → ℕ → ℕ → ℕ → ℕ → Bool
between_floats is_nan half lower upper val =
    if is_nan upper
    then is_nan lower && is_nan val
    else (if is_nan lower
        then (not (is_nan val) && float_le half val upper) || is_nan val
        else (not (is_nan val) && float_le half lower val)
          && (not (is_nan val) && float_le half val upper))

unfoldable pub between_strings : Option Bytes → Option Bytes → Option Bytes → Bool
between_strings (some lower) (some upper) (some other) =
    is_le (compare_bytes lower other) && is_le (compare_bytes other upper)
between_strings (some lower) none (some other) = false
between_strings (some lower) upper none = false
between_strings none upper (some other) = true
between_strings none none none = true
between_strings none (some upper) none = false

abbrev eq_bytes : Bytes → Bytes → Bool
eq_bytes a b = is_eq (compare_bytes a b)

abbrev eq_option_bytes : Option Bytes → Option Bytes → Bool
eq_option_bytes none none = true
eq_option_bytes none (some b) = false
eq_option_bytes (some a) none = false
eq_option_bytes (some a) (some b) = eq_bytes a b

-- `str::starts_with` and `str::ends_with`.
unfoldable pub starts_with : Bytes → Bytes → Bool
starts_with s [] = true
starts_with [] (p ∷ prefix) = false
starts_with (c ∷ s) (p ∷ prefix) = (c == p) && starts_with s prefix

unfoldable pub ends_with : Bytes → Bytes → Bool
ends_with s suffix =
    leb (length suffix) (length s) && eq_bytes (drop (length s - length suffix) s) suffix

-- The condition of a string property: null values match null.
unfoldable pub match_string :
    (Bytes → Bytes → Result Bool) → Option Bytes → Option Bytes → Result Bool
match_string test none none = ok true
match_string test none (some other) = ok false
match_string test (some value) none = ok false
match_string test (some value) (some other) = test other value

abbrev list_contains : {A : Type 0} → (A → A → Bool) → A → Option (List A) → Bool
list_contains eq value none = false
list_contains eq value (some list) = any (eq value) list

abbrev pub FilterCursors : Type 0
FilterCursors = Cursor × Cursor

-- An answer that leaves the cursors alone.
abbrev pub with_cursors : Option FilterCursors → Result Bool → Result (Bool × Option FilterCursors)
with_cursors cursors r = r >>= λ b. ok (b, cursors)

module _ (u : Unicode) (l : Lmdb) (rounds : ℕ) where
  abbrev string_condition :
      (Bytes → Bytes → Result Bool) → IsarObject → Property → Option Bytes → Bool → Result Bool
  string_condition test object p value case_sensitive = do
    other ← read_string object p
    match_string test value (cased u case_sensitive other)

  unfoldable mutual
    unfolding between_floats between_strings match_string starts_with ends_with

    pub evaluate : Filter → IsarObject → Option FilterCursors → Result (Bool × Option FilterCursors)
    evaluate (byte_between p lower upper) object cursors =
        with_cursors cursors (do val ← read_byte object p; ok (leb lower val && leb val upper))
    evaluate (int_between p lower upper) object cursors =
        with_cursors cursors (do val ← read_int object p; ok (leb_ℤ lower val && leb_ℤ val upper))
    evaluate (long_between p lower upper) object cursors =
        with_cursors cursors (do val ← read_long object p; ok (leb_ℤ lower val && leb_ℤ val upper))
    evaluate (float_between p lower upper) object cursors =
        with_cursors cursors
          (do val ← read_float object p; ok (between_floats is_nan_f32 (2 ^ 31) lower upper val))
    evaluate (double_between p lower upper) object cursors =
        with_cursors cursors
          (do val ← read_double object p; ok (between_floats is_nan_f64 (2 ^ 63) lower upper val))
    evaluate (byte_list_contains p value) object cursors =
        with_cursors cursors
          (do list ← read_byte_list object p; ok (list_contains (λ a b. a == b) value list))
    evaluate (int_list_contains p value) object cursors =
        with_cursors cursors (do list ← read_int_list object p; ok (list_contains eqb_ℤ value list))
    evaluate (long_list_contains p value) object cursors =
        with_cursors cursors
          (do list ← read_long_list object p; ok (list_contains eqb_ℤ value list))
    evaluate (string_between p lower upper case_sensitive) object cursors = with_cursors cursors (do
      other ← read_string object p
      ok (between_strings lower upper (cased u case_sensitive other)))
    evaluate (string_starts_with p value case_sensitive) object cursors = with_cursors cursors (
        string_condition (λ other prefix. ok (starts_with other prefix)) object p value
          case_sensitive)
    evaluate (string_ends_with p value case_sensitive) object cursors = with_cursors cursors (
        string_condition (λ other suffix. ok (ends_with other suffix)) object p value
          case_sensitive)
    evaluate (string_matches p value case_sensitive) object cursors = with_cursors cursors (
        string_condition (λ other pattern'. unwrap (fast_wild_match other pattern')) object p value
          case_sensitive)
    evaluate (string_list_contains p value case_sensitive) object cursors =
        with_cursors cursors
          (do list ← read_string_list object p; ok (list_contains eq_option_bytes value list))
    evaluate (and_cond filters) object cursors = evaluate_and filters object cursors
    evaluate (or_cond filters) object cursors = evaluate_or filters object cursors
    evaluate (not_cond filter) object cursors = do
      answer ← evaluate filter object cursors
      ok (not (answer.0), answer.1)
    evaluate (static_cond value) object cursors = ok (value, cursors)
    evaluate (link_cond link id_property filter) object cursors = do
      oid ← read_long object id_property
      elim cursors [
        | none ↦ err version_error
        | some cs ↦ (do
          none_matches ←
              iter l rounds link oid
                (λ s target. do answer ← evaluate filter target none; ok (not (answer.0), s)) (cs.0)
                (cs.1) tt
          ok (not (none_matches.0), some (none_matches.2.0, none_matches.1)))
      ]

    -- The loop of a conjunction: it ends at the first condition that is not met.
    pub evaluate_and :
        Filters → IsarObject → Option FilterCursors → Result (Bool × Option FilterCursors)
    evaluate_and nil object cursors = ok (true, cursors)
    evaluate_and (cons filter filters) object cursors = do
      answer ← evaluate filter object cursors
      elim (answer.0) [
        | true ↦ evaluate_and filters object (answer.1)
        | false ↦ ok (false, answer.1)
      ]

    pub evaluate_or :
        Filters → IsarObject → Option FilterCursors → Result (Bool × Option FilterCursors)
    evaluate_or nil object cursors = ok (false, cursors)
    evaluate_or (cons filter filters) object cursors = do
      answer ← evaluate filter object cursors
      elim (answer.0) [ true ↦ ok (true, answer.1) | false ↦ evaluate_or filters object (answer.1) ]
