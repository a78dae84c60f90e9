-- ===== src/Object/ObjectBuilder/Read.antt =====
-- What stands in a buffer is what the readers of numbers and lists find there.
use isar_core.Prelude.{ℕ, suc, ◌+◌, ◌*◌, ◌^◌, ◌≤◌, ◌<◌, ◌≡◌, refl, ap, ◌||◌, arith, true, Bool}
use isar_core.Prelude.{Option, none, some, List, [], ◌∷◌, ◌++◌, length, All}
use mathlib.Core.Path.{subst}
use isar_core.Prelude.Int.{ℤ, IsSigned, to_unsigned, to_unsigned_bound, to_signed-to_unsigned}
use isar_core.Prelude.Bytes.{Bytes, to_le_bytes}
use isar_core.Error.{Result, ok}
use isar_core.Object.IsarObject.{
  IsarObject, slice, read_signed, get_offset_length, read_elements, read_string_at, contains_offset,
  at_list,
}
use isar_core.Object.ObjectBuilder.{signed_bytes, byte_bytes, list_bytes}
use isar_core.Object.ObjectBuilder.Buffer.{At, At-length, slice-At, read_le-At}
use isar_core.Object.ObjectBuilder.Lists.{list_bytes-byte_bytes}
use isar_core.Object.ObjectBuilder.Value.{list_of}
use isar_core.Object.ObjectBuilder.Stored.{
  Header, StoredList, null, elements, StoredTable, string_list_form,
}

pub read_signed-At :
    (buffer : Bytes) (half w offset : ℕ) (z : ℤ)
    → IsSigned half z
    → 2 * half ≤ 256 ^ w
    → At buffer offset (signed_bytes half w z)
    → read_signed half w offset buffer ≡ ok z
unfolding read_signed
read_signed-At buffer half w offset z valid fits h =
    rw
      (read_le-At buffer w offset (to_unsigned half z)
        (omega (arith, to_unsigned_bound half z valid)) h)
      (ap ok (to_signed-to_unsigned half z valid))

abbrev pub InOption {ℓ} : {A : Type ℓ} → (A → Type 0) → Option A → Type 0
InOption P none = Unit {0}
InOption P (some a) = P a

-- The bytes of two lists in a row are each in their place.
At-append_left :
    (buffer : Bytes) (offset : ℕ) (xs ys : Bytes)
    → At buffer offset (xs ++ ys)
    → At buffer offset xs
At-append_left buffer offset [] ys h = omega (arith, At-length buffer offset ys h)
At-append_left buffer offset (x ∷ xs) ys h = (h.0, At-append_left buffer (suc offset) xs ys h.1)

At-append_right :
    (buffer : Bytes) (offset : ℕ) (xs ys : Bytes)
    → At buffer offset (xs ++ ys)
    → At buffer (offset + length xs) ys
At-append_right buffer offset [] ys h = subst (λ (o : ℕ). At buffer o ys) (omega arith) h
At-append_right buffer offset (x ∷ xs) ys h =
    subst (λ (o : ℕ). At buffer o ys) (omega arith) (At-append_right buffer (suc offset) xs ys h.1)

-- The elements of a list are read one by one, if each can be read where it stands.
pub read_elements-At {ℓ} :
    {A : Type ℓ} (buffer : Bytes) (memory : A → Bytes) (size : ℕ) (read : ℕ → Result A)
    (P : A → Type 0)
    → ((a : A) → length (memory a) ≡ size)
    → ((offset : ℕ) (a : A) → P a → At buffer offset (memory a) → read offset ≡ ok a)
    → (offset : ℕ) (l : List A) → All P l
    → At buffer offset (list_bytes memory l)
    → read_elements read size offset (length l) ≡ ok l
unfolding read_elements list_bytes
read_elements-At buffer memory size read P same reads offset [] valid h = refl
read_elements-At buffer memory size read P same reads offset (a ∷ l) valid h =
    let here = At-append_left buffer offset (memory a) (list_bytes memory l) h in
    let behind = At-append_right buffer offset (memory a) (list_bytes memory l) h in
    let rest =
      subst (λ (o : ℕ). At buffer o (list_bytes memory l)) (omega (arith, same a)) behind in
    rw (
      reads offset a valid.0 here,
      read_elements-At buffer memory size read P same reads (offset + size) l valid.1 rest,
    )

InOption-trivial : (s : Option Bytes) → InOption (λ s. Unit {0}) s
InOption-trivial none = tt
InOption-trivial (some s) = tt

string_list_form-list_of : (s : Option Bytes) → string_list_form s ≡ list_of byte_bytes s
string_list_form-list_of none = refl
string_list_form-list_of (some s) = rw list_bytes-byte_bytes

-- An object over the buffer, whose static part holds the offset in question.
module _ (o : IsarObject) (lo : ℕ) (positive : 0 < lo) where
  pub position-Header :
      (offset position count : ℕ) (dynamic : Bool)
      → (dynamic || contains_offset o offset) ≡ true
      → Header o.bytes lo offset position count
      → get_offset_length o offset dynamic ≡ ok (some (position, count))
  unfolding get_offset_length contains_offset
  position-Header offset position count dynamic contained h =
      rw
        (
          contained,
          read_le-At o.bytes 4 offset position h.position_fits h.position_at,
          read_le-At o.bytes 4 (offset + 4) count h.count_fits h.count_at,
        )
        (ground (arith, h.behind))

  pub position-null :
      (offset : ℕ) (dynamic : Bool)
      → (dynamic || contains_offset o offset) ≡ true
      → At o.bytes offset (to_le_bytes 8 0)
      → get_offset_length o offset dynamic ≡ ok none
  unfolding get_offset_length to_le_bytes contains_offset
  position-null offset dynamic contained h =
      let zeros = to_le_bytes 4 0 in
      rw
        (
          contained,
          read_le-At o.bytes 4 offset 0 (omega arith) (At-append_left o.bytes offset zeros zeros h),
          read_le-At o.bytes 4 (offset + 4) 0 (omega arith)
              (At-append_right o.bytes offset zeros zeros h),
        )
        refl

  -- A list of any elements that can be read where they stand.
  pub at_list-StoredList {ℓ} :
      {A : Type ℓ} (memory : A → Bytes) (read : ℕ → ℕ → Result (List A)) (P : List A → Type 0)
      (offset : ℕ) (dynamic : Bool) (l : Option (List A))
      → (dynamic || contains_offset o offset) ≡ true
      → ((position : ℕ) (list : List A)
          → P list
          → At o.bytes position (list_bytes memory list)
          → read position (length list) ≡ ok list)
      → InOption P l
      → StoredList o.bytes lo offset (list_of memory l)
      → at_list (get_offset_length o offset dynamic) read ≡ ok l
  at_list-StoredList memory read P offset dynamic none contained reads valid (null h) =
      rw (position-null offset dynamic contained h)
  at_list-StoredList memory read P offset dynamic (some l) contained reads valid
        (elements position h z) =
      rw (position-Header offset position (length l) dynamic contained h, reads position l valid z)

  pub read_string_at-StoredList :
      (offset : ℕ) (dynamic : Bool) (s : Option Bytes)
      → (dynamic || contains_offset o offset) ≡ true
      → StoredList o.bytes lo offset (list_of byte_bytes s)
      → read_string_at o offset dynamic ≡ ok s
  unfolding read_string_at
  read_string_at-StoredList offset dynamic s contained h =
      at_list-StoredList byte_bytes (λ position length. slice position length o.bytes)
        (λ s. Unit {0}) offset dynamic s contained
        (λ position s _ z. slice-At o.bytes position s (rw (list_bytes-byte_bytes s) at z))
        (InOption-trivial s) h

  pub read_strings-StoredTable :
      (offset : ℕ) (l : List (Option Bytes))
      → StoredTable o.bytes lo offset l
      → read_elements (λ offset. read_string_at o offset true) 8 offset (length l) ≡ ok l
  unfolding read_elements
  read_strings-StoredTable offset [] h = refl
  read_strings-StoredTable offset (s ∷ l) (behind, h, rest) = rw (
    read_string_at-StoredList offset true s refl (rw (string_list_form-list_of s) at h),
    read_strings-StoredTable (offset + 8) l rest,
  )
