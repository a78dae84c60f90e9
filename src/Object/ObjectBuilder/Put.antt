-- ===== src/Object/ObjectBuilder/Put.antt =====
-- What each method of the builder leaves in the buffer, by the form of its value.
use isar_core.Prelude.{ℕ, ◌+◌, ◌*◌, ◌%◌, ◌^◌, ◌≤◌, ◌<◌, ◌≡◌, refl, inl, arith}
use isar_core.Prelude.{Option, none, some, List, [], ◌∷◌, length}
use isar_core.Prelude.Bytes.{Bytes, to_le_bytes, length-to_le_bytes}
use isar_core.Error.{ok, ◌>>=◌}
use isar_core.Object.ObjectBuilder.{
  ObjectBuilder, write_at, write_list, write_strings, byte_bytes, signed_bytes,
}
use isar_core.Object.ObjectBuilder.{next_of_type}
use isar_core.Object.ObjectBuilder.{write_byte, write_int, write_float, write_long, write_double}
use isar_core.Object.ObjectBuilder.{write_string, write_byte_list, write_int_list, write_float_list}
use isar_core.Object.ObjectBuilder.{write_long_list, write_double_list, write_string_list}
use isar_core.Object.ObjectBuilder.Buffer.{write_buffer-Written}
use isar_core.Object.ObjectBuilder.Value.{
  Value, byte, int, float, long, double, string, byte_list, int_list, float_list, long_list,
  double_list, string_list, type_of, write, Form, static, list, strings, form, width, dynamic_size,
  IsCounted-form, Counted, list_of, list_size,
}
use isar_core.Object.ObjectBuilder.Stored.{
  Header-frame, StoredList-weaken, Stored, in_place, in_list, null_strings, in_table,
}
use isar_core.Object.ObjectBuilder.Lists.{
  Kept, Frame-widen, Frame-behind, with_header, with_header_lem, write_list_lem, write_strings_lem,
}

-- The list of strings at `offset`, behind the check of the type.
put_strings : ObjectBuilder → ℕ → Option (List (Option Bytes)) → ObjectBuilder
put_strings ob offset (some l) =
    let ob₁ = write_at ob offset (to_le_bytes 4 (ob.dynamic_offset % 2 ^ 32)) in
    let ob₂ = write_at ob₁ (offset + 4) (to_le_bytes 4 (length l % 2 ^ 32)) in
    write_strings (record ob₂ { dynamic_offset = ob₂.dynamic_offset + length l * 8 })
      ob₂.dynamic_offset l
put_strings ob offset none = write_at ob offset (to_le_bytes 8 0)

-- The value at `offset`, behind the check of the type.
pub put : ObjectBuilder → ℕ → Value → ObjectBuilder
put ob offset (byte b) = write_at ob offset (b ∷ [])
put ob offset (int z) = write_at ob offset (signed_bytes (2 ^ 31) 4 z)
put ob offset (float b) = write_at ob offset (to_le_bytes 4 b)
put ob offset (long z) = write_at ob offset (signed_bytes (2 ^ 63) 8 z)
put ob offset (double b) = write_at ob offset (to_le_bytes 8 b)
put ob offset (string s) = write_list byte_bytes ob offset s
put ob offset (byte_list l) = write_list byte_bytes ob offset l
put ob offset (int_list l) = write_list (signed_bytes (2 ^ 31) 4) ob offset l
put ob offset (float_list l) = write_list (to_le_bytes 4) ob offset l
put ob offset (long_list l) = write_list (signed_bytes (2 ^ 63) 8) ob offset l
put ob offset (double_list l) = write_list (to_le_bytes 8) ob offset l
put ob offset (string_list l) = put_strings ob offset l

-- Every method checks the type of the next property and then puts its value there.
pub write-put :
    (ob : ObjectBuilder) (v : Value)
    → write ob v ≡ (next_of_type ob (type_of v) >>= λ (p, next). ok (put next p.offset v))
unfolding write type_of put
write-put ob (byte b) = unfold write_byte in refl
write-put ob (int z) = unfold write_int in refl
write-put ob (float b) = unfold write_float in refl
write-put ob (long z) = unfold write_long in refl
write-put ob (double b) = unfold write_double in refl
write-put ob (string s) = unfold write_string in refl
write-put ob (byte_list l) = unfold write_byte_list in refl
write-put ob (int_list l) = unfold write_int_list in refl
write-put ob (float_list l) = unfold write_float_list in refl
write-put ob (long_list l) = unfold write_long_list in refl
write-put ob (double_list l) = unfold write_double_list in refl
write-put ob (string_list none) = unfold write_string_list put_strings in refl
write-put ob (string_list (some l)) = unfold write_string_list put_strings in refl

-- What holds after a form is stored at `offset`, in the static part that ends at `lo`.
abbrev pub Puts : ℕ → ObjectBuilder → ObjectBuilder → ℕ → Form → Type 0
Puts lo before after offset f =
    Stored after.buffer lo offset f × Kept before after offset (width f) (dynamic_size f)

module _ (lo : ℕ) (ob : ObjectBuilder) (offset : ℕ) (behind : lo ≤ ob.dynamic_offset)
    (within : length ob.buffer ≤ ob.dynamic_offset) where
  put_static :
      (bytes : Bytes)
      → offset + length bytes ≤ ob.dynamic_offset
      → Puts lo ob (write_at ob offset bytes) offset (static bytes)
  unfolding write_at
  put_static bytes room =
      let w = write_buffer-Written ob.buffer offset bytes in
      (
        in_place w.stored,
        record {
          frame = w.frame;
          within = w.within ob.dynamic_offset within room;
          grown = omega arith;
          same_info = refl;
          same_index = refl;
        },
      )

  put_list {ℓ} :
      {A : Type ℓ} (memory : A → Bytes) (l : Option (List A))
      → Counted (list_of memory l)
      → offset + 8 ≤ ob.dynamic_offset
      → ob.dynamic_offset + list_size (list_of memory l) < 2 ^ 32
      → Puts lo ob (write_list memory ob offset l) offset (list (list_of memory l))
  put_list memory l counted room fits =
      let (stored, kept) = write_list_lem memory ob offset l counted room within fits in
      (in_list (StoredList-weaken behind stored), kept)

  put_strings_lem :
      (l : Option (List (Option Bytes)))
      → offset + 8 ≤ lo
      → ob.dynamic_offset + dynamic_size (strings l) < 2 ^ 32
      → Puts lo ob (put_strings ob offset l) offset (strings l)
  unfolding put_strings write_at
  put_strings_lem none room fits =
      let w = write_buffer-Written ob.buffer offset (to_le_bytes 8 0) in
      let n = length-to_le_bytes 8 0 in
      (
        null_strings w.stored,
        record {
          frame = Frame-widen (omega arith) (omega arith) w.frame;
          within = w.within ob.dynamic_offset within (omega arith);
          grown = omega arith;
          same_info = refl;
          same_index = refl;
        },
      )
  put_strings_lem (some l) room fits =
      let end : ℕ = ob.dynamic_offset in
      let h = with_header_lem ob.buffer offset end (length l) (omega arith) (omega arith) in
      let ob₂ : ObjectBuilder = record ob {
        buffer = with_header ob.buffer offset end (length l);
        dynamic_offset = end + length l * 8;
      } in
      let (table, kept) =
        write_strings_lem lo ob₂ end l behind (omega arith) (h.within _ (omega arith) (omega arith))
          (omega arith) in
      (
        in_table end (Header-frame kept.frame (inl (omega arith)) (h.header lo behind)) table,
        record {
          frame = Frame-behind h.frame within kept.frame;
          within = kept.within;
          grown = omega (arith, kept.grown);
          same_info = kept.same_info;
          same_index = kept.same_index;
        },
      )

-- A value that is put into the static part stands there, and what stood elsewhere is kept.
pub put_lem :
    (lo : ℕ) (ob : ObjectBuilder) (offset : ℕ) (v : Value)
    → lo ≤ ob.dynamic_offset
    → length ob.buffer ≤ ob.dynamic_offset
    → offset + width (form v) ≤ lo
    → ob.dynamic_offset + dynamic_size (form v) < 2 ^ 32
    → Puts lo ob (put ob offset v) offset (form v)
unfolding put form
put_lem lo ob offset (string s) behind within room fits =
    put_list lo ob offset behind within byte_bytes s (IsCounted-form (string s)) (omega arith) fits
put_lem lo ob offset (byte_list l) behind within room fits =
    put_list lo ob offset behind within byte_bytes l (IsCounted-form (byte_list l)) (omega arith)
      fits
put_lem lo ob offset (int_list l) behind within room fits =
    put_list lo ob offset behind within (signed_bytes (2 ^ 31) 4) l (IsCounted-form (int_list l))
      (omega arith) fits
put_lem lo ob offset (float_list l) behind within room fits =
    put_list lo ob offset behind within (to_le_bytes 4) l (IsCounted-form (float_list l))
      (omega arith) fits
put_lem lo ob offset (long_list l) behind within room fits =
    put_list lo ob offset behind within (signed_bytes (2 ^ 63) 8) l (IsCounted-form (long_list l))
      (omega arith) fits
put_lem lo ob offset (double_list l) behind within room fits =
    put_list lo ob offset behind within (to_le_bytes 8) l (IsCounted-form (double_list l))
      (omega arith) fits
put_lem lo ob offset (string_list l) behind within room fits =
    put_strings_lem lo ob offset behind within l room fits
put_lem lo ob offset (byte b) behind within room fits =
    put_static lo ob offset behind within (b ∷ []) (omega arith)
put_lem lo ob offset (int z) behind within room fits =
    put_static lo ob offset behind within (signed_bytes (2 ^ 31) 4 z) (omega arith)
put_lem lo ob offset (float b) behind within room fits =
    put_static lo ob offset behind within (to_le_bytes 4 b) (omega arith)
put_lem lo ob offset (long z) behind within room fits =
    put_static lo ob offset behind within (signed_bytes (2 ^ 63) 8 z) (omega arith)
put_lem lo ob offset (double b) behind within room fits =
    put_static lo ob offset behind within (to_le_bytes 8 b) (omega arith)
