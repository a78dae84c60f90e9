-- ===== src/Object/ObjectBuilder/Lists.antt =====
-- What `write_list` and the loop over strings leave in the buffer.
use isar_core.Prelude.{ℕ, ◌+◌, ◌*◌, ◌%◌, ◌^◌, ◌≤◌, ◌<◌, ◌≡◌, refl, inl, arith, ap, ◌∙◌}
use isar_core.Prelude.{Option, none, some, List, [], ◌∷◌, length}
use isar_core.Prelude.Bytes.{Bytes, to_le_bytes, length-to_le_bytes}
use isar_core.Object.ObjectBuilder.{
  ObjectBuilder, write_at, write_buffer, write_list, write_strings,
}
use isar_core.Object.ObjectBuilder.{list_bytes, byte_bytes}
use isar_core.Object.ObjectBuilder.Buffer.{Frame, At-Frame, Frame-trans, write_buffer-Written}
use isar_core.Object.ObjectBuilder.Value.{Counted, list_of, list_size, string_size, strings_size}
use isar_core.Object.ObjectBuilder.Stored.{
  Header, Header-frame, StoredList, null, elements, string_list_form, StoredTable, StoredList-frame,
  StoredList-weaken,
}

pub Frame-widen :
    {before after : Bytes} {a b c d : ℕ}
    → c ≤ a
    → b ≤ d
    → Frame before after a b
    → Frame before after c d
Frame-widen ca bd f = record { grows = f.grows; same = λ j h apart. f.same j h (omega arith) }

-- A later write behind the end of the first buffer does not touch it.
pub Frame-behind :
    {b₀ b₁ b₂ : Bytes} {lo hi end e : ℕ}
    → Frame b₀ b₁ lo hi
    → length b₀ ≤ end
    → Frame b₁ b₂ end e
    → Frame b₀ b₂ lo hi
Frame-behind f h g = record {
  grows = omega (arith, f.grows, g.grows);
  same =
      λ j below apart. g.same j (omega (arith, f.grows)) (inl (omega arith)) ∙ f.same j below apart;
}

-- The position and the count of a list, as two writes leave them.
abbrev pub with_header : Bytes → ℕ → ℕ → ℕ → Bytes
with_header buffer offset position count =
    write_buffer (write_buffer buffer offset (to_le_bytes 4 (position % 2 ^ 32))) (offset + 4)
      (to_le_bytes 4 (count % 2 ^ 32))

pub record HeaderWritten (before after : Bytes) (offset position count : ℕ) : Type 0 where
  pub header : (lo : ℕ) → lo ≤ position → Header after lo offset position count
  pub frame : Frame before after offset (offset + 8)
  pub within : (end : ℕ) → length before ≤ end → offset + 8 ≤ end → length after ≤ end

pub with_header_lem :
    (buffer : Bytes) (offset position count : ℕ)
    → position < 2 ^ 32
    → count < 2 ^ 32
    → HeaderWritten buffer (with_header buffer offset position count) offset position count
with_header_lem buffer offset position count hp hc =
    let w₁ = write_buffer-Written buffer offset (to_le_bytes 4 position) in
    let w₂ =
      write_buffer-Written (write_buffer buffer offset (to_le_bytes 4 position)) (offset + 4)
        (to_le_bytes 4 count) in
    let n₁ = length-to_le_bytes 4 position in
    let n₂ = length-to_le_bytes 4 count in
    let small_position : position % 2 ^ 32 ≡ position = omega arith in
    let small_count : count % 2 ^ 32 ≡ count = omega arith in
    rw (small_position, small_count)
      (record {
        header = λ lo behind. record {
          position_at =
              At-Frame offset (to_le_bytes 4 position) w₂.frame (inl (omega arith)) w₁.stored;
          count_at = w₂.stored;
          behind = behind;
          position_fits = hp;
          count_fits = hc;
        };
        frame =
            Frame-trans (Frame-widen (omega arith) (omega arith) w₁.frame)
              (Frame-widen (omega arith) (omega arith) w₂.frame);
        within = λ end h k. w₂.within end (w₁.within end h (omega arith)) (omega arith);
      })

-- What a method that stores something of a width at `offset` does to the builder around it.
pub record Kept (before after : ObjectBuilder) (offset wide size : ℕ) : Type 0 where
  pub frame : Frame before.buffer after.buffer offset (offset + wide)
  pub within : length after.buffer ≤ after.dynamic_offset
  pub grown : after.dynamic_offset ≡ before.dynamic_offset + size
  pub same_info : after.object_info ≡ before.object_info
  pub same_index : after.property_index ≡ before.property_index

pub write_list_lem {ℓ} :
    {A : Type ℓ} (memory : A → Bytes) (ob : ObjectBuilder) (offset : ℕ) (l : Option (List A))
    → Counted (list_of memory l)
    → offset + 8 ≤ ob.dynamic_offset
    → length ob.buffer ≤ ob.dynamic_offset
    → ob.dynamic_offset + list_size (list_of memory l) < 2 ^ 32
    → StoredList (write_list memory ob offset l).buffer ob.dynamic_offset offset (list_of memory l)
      × Kept ob (write_list memory ob offset l) offset 8 (list_size (list_of memory l))
unfolding write_list write_at
write_list_lem memory ob offset none counted room within fits =
    let w = write_buffer-Written ob.buffer offset (to_le_bytes 8 0) in
    let n = length-to_le_bytes 8 0 in
    (
      null w.stored,
      record {
        frame = Frame-widen (omega arith) (omega arith) w.frame;
        within = w.within ob.dynamic_offset within (omega arith);
        grown = omega arith;
        same_info = refl;
        same_index = refl;
      },
    )
write_list_lem memory ob offset (some l) counted room within fits =
    let end : ℕ = ob.dynamic_offset in
    let h = with_header_lem ob.buffer offset end (length l) (omega arith) (omega arith) in
    let w =
      write_buffer-Written (with_header ob.buffer offset end (length l)) end
        (list_bytes memory l) in
    (
      elements end (Header-frame w.frame (inl room) (h.header end (omega arith))) w.stored,
      record {
        frame = Frame-behind h.frame within w.frame;
        within = w.within _ (h.within _ (omega arith) (omega arith)) (omega arith);
        grown = refl;
        same_info = refl;
        same_index = refl;
      },
    )

pub list_bytes-byte_bytes : (s : Bytes) → list_bytes byte_bytes s ≡ s
unfolding list_bytes
list_bytes-byte_bytes [] = refl
list_bytes-byte_bytes (b ∷ s) = ap (λ (t : Bytes). b ∷ t) (list_bytes-byte_bytes s)

write_string_lem :
    (ob : ObjectBuilder) (offset : ℕ) (s : Option Bytes)
    → offset + 8 ≤ ob.dynamic_offset
    → length ob.buffer ≤ ob.dynamic_offset
    → ob.dynamic_offset + string_size s < 2 ^ 32
    → StoredList
        (write_list byte_bytes ob offset s).buffer
        ob.dynamic_offset
        offset
        (string_list_form s)
      × Kept ob (write_list byte_bytes ob offset s) offset 8 (string_size s)
write_string_lem ob offset none room within fits =
    write_list_lem byte_bytes ob offset none tt room within fits
write_string_lem ob offset (some s) room within fits =
    let e = list_bytes-byte_bytes s in
    rw e at
      (write_list_lem byte_bytes ob offset (some s) (rw e (omega arith)) room within (rw e fits))

pub write_strings_lem :
    (lo : ℕ) (ob : ObjectBuilder) (offset : ℕ) (l : List (Option Bytes))
    → lo ≤ offset
    → offset + length l * 8 ≤ ob.dynamic_offset
    → length ob.buffer ≤ ob.dynamic_offset
    → ob.dynamic_offset + strings_size l < 2 ^ 32
    → StoredTable (write_strings ob offset l).buffer lo offset l
      × Kept ob (write_strings ob offset l) offset (length l * 8) (strings_size l)
unfolding write_strings
write_strings_lem lo ob offset [] behind room within fits = (
  tt,
  record {
    frame = record { grows = omega arith; same = λ j h apart. refl };
    within = within;
    grown = omega arith;
    same_info = refl;
    same_index = refl;
  },
)
write_strings_lem lo ob offset (s ∷ l) behind room within fits =
    let (first, kept) = write_string_lem ob offset s (omega arith) within (omega arith) in
    let (rest, kept') =
      write_strings_lem lo (write_list byte_bytes ob offset s) (offset + 8) l (omega arith)
        (omega (arith, kept.grown)) kept.within (omega (arith, kept.grown)) in
    (
      (
        behind,
        StoredList-weaken (omega arith)
            (StoredList-frame kept'.frame (omega arith) (inl (omega arith)) first),
        rest,
      ),
      record {
        frame =
            Frame-trans (Frame-widen (omega arith) (omega arith) kept.frame)
              (Frame-widen (omega arith) (omega arith) kept'.frame);
        within = kept'.within;
        grown = omega (arith, kept.grown, kept'.grown);
        same_info = kept'.same_info ∙ kept.same_info;
        same_index = kept'.same_index ∙ kept.same_index;
      },
    )
