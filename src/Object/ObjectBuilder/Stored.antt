-- ===== src/Object/ObjectBuilder/Stored.antt =====
-- How a form stands in a buffer, and that a write elsewhere leaves it standing.
use isar_core.Prelude.{ℕ, ◌+◌, ◌^◌, ◌≤◌, ◌<◌, ◌⊎◌, arith}
use isar_core.Prelude.{Option, none, some, List, [], ◌∷◌, length}
use isar_core.Prelude.Bytes.{Bytes, to_le_bytes, length-to_le_bytes}
use isar_core.Object.ObjectBuilder.Buffer.{At, Frame, At-Frame}
use isar_core.Object.ObjectBuilder.Value.{Form, static, list, strings, width}

-- The position and the count of a list stand at `offset`. The position lies behind the static part,
-- which ends at `lo`, and both fit a u32.
pub record Header (buffer : Bytes) (lo offset position count : ℕ) : Type 0 where
  pub position_at : At buffer offset (to_le_bytes 4 position)
  pub count_at : At buffer (offset + 4) (to_le_bytes 4 count)
  pub behind : lo ≤ position
  pub position_fits : position < 2 ^ 32
  pub count_fits : count < 2 ^ 32

pub data StoredList (buffer : Bytes) (lo offset : ℕ) : Option (ℕ × Bytes) → Type 0 where
  null : At buffer offset (to_le_bytes 8 0) → StoredList buffer lo offset none
  elements :
      {count : ℕ} {bytes : Bytes} (position : ℕ)
      → Header buffer lo offset position count
      → At buffer position bytes
      → StoredList buffer lo offset (some (count, bytes))

abbrev pub string_list_form : Option Bytes → Option (ℕ × Bytes)
string_list_form none = none
string_list_form (some s) = some (length s, s)

-- The entries of a table of strings, from `offset` on.
abbrev pub StoredTable : Bytes → ℕ → ℕ → List (Option Bytes) → Type 0
StoredTable buffer lo offset [] = Unit {0}
StoredTable buffer lo offset (s ∷ l) =
    (lo ≤ offset)
    × StoredList buffer lo offset (string_list_form s)
    × StoredTable buffer lo (offset + 8) l

pub data Stored (buffer : Bytes) (lo offset : ℕ) : Form → Type 0 where
  in_place : {bytes : Bytes} → At buffer offset bytes → Stored buffer lo offset (static bytes)
  in_list :
      {l : Option (ℕ × Bytes)} → StoredList buffer lo offset l → Stored buffer lo offset (list l)
  null_strings : At buffer offset (to_le_bytes 8 0) → Stored buffer lo offset (strings none)
  in_table :
      {l : List (Option Bytes)} (position : ℕ)
      → Header buffer lo offset position (length l)
      → StoredTable buffer lo position l
      → Stored buffer lo offset (strings (some l))

-- A write apart from the header of a list, or from the zeros of a null list, leaves it standing.
module _ {before after : Bytes} {a b : ℕ} (f : Frame before after a b) where
  pub Header-frame :
      {lo offset position count : ℕ}
      → (offset + 8 ≤ a) ⊎ (b ≤ offset)
      → Header before lo offset position count
      → Header after lo offset position count
  Header-frame {offset} {position} {count} apart h = record {
    position_at =
        At-Frame offset (to_le_bytes 4 position) f (omega (arith, length-to_le_bytes 4 position))
          h.position_at;
    count_at =
        At-Frame (offset + 4) (to_le_bytes 4 count) f (omega (arith, length-to_le_bytes 4 count))
          h.count_at;
    behind = h.behind;
    position_fits = h.position_fits;
    count_fits = h.count_fits;
  }

  null-frame :
      (offset : ℕ)
      → (offset + 8 ≤ a) ⊎ (b ≤ offset)
      → At before offset (to_le_bytes 8 0)
      → At after offset (to_le_bytes 8 0)
  null-frame offset apart h =
      At-Frame offset (to_le_bytes 8 0) f (omega (arith, length-to_le_bytes 8 0)) h

-- So does a write to a part that ends before `lo`, where the elements begin.
module _ {before after : Bytes} {a b : ℕ} (f : Frame before after a b) {lo : ℕ}
    (in_front : b ≤ lo) where
  pub StoredList-frame :
      {offset : ℕ} {l : Option (ℕ × Bytes)}
      → (offset + 8 ≤ a) ⊎ (b ≤ offset)
      → StoredList before lo offset l
      → StoredList after lo offset l
  StoredList-frame {offset} apart (null h) = null (null-frame f offset apart h)
  StoredList-frame apart (elements {bytes = bytes} position header h) =
      elements position (Header-frame f apart header)
        (At-Frame position bytes f (omega (arith, header.behind)) h)

  StoredTable-frame :
      (offset : ℕ) (l : List (Option Bytes))
      → StoredTable before lo offset l
      → StoredTable after lo offset l
  StoredTable-frame offset [] h = tt
  StoredTable-frame offset (s ∷ l) (behind, h, rest) =
      (behind, StoredList-frame (omega arith) h, StoredTable-frame (offset + 8) l rest)

  pub Stored-frame :
      {offset : ℕ} {form : Form}
      → (offset + width form ≤ a) ⊎ (b ≤ offset)
      → Stored before lo offset form
      → Stored after lo offset form
  Stored-frame {offset} apart (in_place {bytes = bytes} h) =
      in_place (At-Frame offset bytes f apart h)
  Stored-frame apart (in_list h) = in_list (StoredList-frame apart h)
  Stored-frame {offset} apart (null_strings h) = null_strings (null-frame f offset apart h)
  Stored-frame apart (in_table {l = l} position header h) =
      in_table position (Header-frame f apart header) (StoredTable-frame position l h)

-- A list that stands behind one place stands behind every earlier one.
pub StoredList-weaken :
    {buffer : Bytes} {hi lo offset : ℕ} {l : Option (ℕ × Bytes)}
    → lo ≤ hi
    → StoredList buffer hi offset l
    → StoredList buffer lo offset l
StoredList-weaken h (null z) = null z
StoredList-weaken {hi} h (elements position header z) =
    elements position
      (record {
        position_at = header.position_at;
        count_at = header.count_at;
        behind = omega (arith, header.behind);
        position_fits = header.position_fits;
        count_fits = header.count_fits;
      })
      z
