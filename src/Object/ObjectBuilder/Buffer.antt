-- ===== src/Object/ObjectBuilder/Buffer.antt =====
-- What a write to the buffer stores and what it leaves alone, and what a read finds there.
use isar_core.Prelude.{ℕ, zero, suc, ◌+◌, ◌-◌, ◌^◌, ◌≤◌, ◌<◌, ◌≡◌, refl, ◌⊎◌, inl, inr, arith, ap}
use isar_core.Prelude.{some, [], ◌∷◌, ◌++◌, length, length-append, length-replicate, replicate}
use isar_core.Prelude.{take, drop, get_elem?, Bool-cases, ltb, ◌∙◌}
use isar_core.Prelude.Bytes.{Bytes, to_le_bytes, from_le_bytes-to_le_bytes, length-to_le_bytes}
use isar_core.Error.{ok}
use isar_core.Object.IsarObject.{slice, read_le}
use isar_core.Object.ObjectBuilder.{resize, clone_from_slice, write_buffer}

-- The bytes `bytes` stand in `buffer` at `offset`, all of them within it.
abbrev pub At : Bytes → ℕ → Bytes → Type 0
At buffer offset [] = offset ≤ length buffer
At buffer offset (b ∷ bytes) = (get_elem? buffer offset ≡ some b) × At buffer (suc offset) bytes

-- `after` extends `before`, and differs from it at most from `lo` up to `hi` and behind its end.
pub record Frame (before after : Bytes) (lo hi : ℕ) : Type 0 where
  pub grows : length before ≤ length after
  pub same :
      (j : ℕ) → j < length before → (j < lo) ⊎ (hi ≤ j) → get_elem? after j ≡ get_elem? before j

get_elem?-lt : (xs : Bytes) (i : ℕ) {b : ℕ} → get_elem? xs i ≡ some b → i < length xs
get_elem?-lt [] i h = cc
get_elem?-lt (x ∷ xs) zero h = omega arith
get_elem?-lt (x ∷ xs) (suc i) h = omega (arith, get_elem?-lt xs i h)

get_elem?-append_left :
    (xs ys : Bytes) (i : ℕ) → i < length xs → get_elem? (xs ++ ys) i ≡ get_elem? xs i
get_elem?-append_left [] ys i h = elim h [ ]
get_elem?-append_left (x ∷ xs) ys zero h = refl
get_elem?-append_left (x ∷ xs) ys (suc i) h = get_elem?-append_left xs ys i (omega arith)

pub At-length :
    (buffer : Bytes) (offset : ℕ) (bytes : Bytes)
    → At buffer offset bytes
    → offset + length bytes ≤ length buffer
At-length buffer offset [] h = omega arith
At-length buffer offset (b ∷ bytes) h = omega (arith, At-length buffer (suc offset) bytes h.1)

pub At-Frame :
    {before after : Bytes} {lo hi : ℕ} (offset : ℕ) (bytes : Bytes)
    → Frame before after lo hi
    → (offset + length bytes ≤ lo) ⊎ (hi ≤ offset)
    → At before offset bytes
    → At after offset bytes
At-Frame offset [] f d h = omega (arith, f.grows)
At-Frame {before} offset (b ∷ bytes) f d h = (
  f.same offset (get_elem?-lt before offset h.0) (omega arith) ∙ h.0,
  At-Frame (suc offset) bytes f (omega arith) h.1,
)

pub Frame-trans : {a b c : Bytes} {lo hi : ℕ} → Frame a b lo hi → Frame b c lo hi → Frame a c lo hi
Frame-trans f g = record {
  grows = omega (arith, f.grows, g.grows);
  same = λ j h d. g.same j (omega (arith, f.grows)) d ∙ f.same j h d;
}

-- A copy keeps the length, and all bytes outside its range.
length-clone_from_slice :
    (xs : Bytes) (offset : ℕ) (bs : Bytes) → length (clone_from_slice xs offset bs) ≡ length xs
unfolding clone_from_slice
length-clone_from_slice xs zero [] = refl
length-clone_from_slice [] zero (b ∷ bs) = refl
length-clone_from_slice (x ∷ xs) zero (b ∷ bs) = ap suc (length-clone_from_slice xs zero bs)
length-clone_from_slice [] (suc offset) bs = refl
length-clone_from_slice (x ∷ xs) (suc offset) bs = ap suc (length-clone_from_slice xs offset bs)

clone_from_slice-outside :
    (xs : Bytes) (offset : ℕ) (bs : Bytes) (j : ℕ)
    → (j < offset) ⊎ (offset + length bs ≤ j)
    → get_elem? (clone_from_slice xs offset bs) j ≡ get_elem? xs j
unfolding clone_from_slice
clone_from_slice-outside xs zero [] j d = refl
clone_from_slice-outside [] zero (b ∷ bs) j d = refl
clone_from_slice-outside (x ∷ xs) zero (b ∷ bs) zero d = absurd (omega arith)
clone_from_slice-outside (x ∷ xs) zero (b ∷ bs) (suc j) d =
    clone_from_slice-outside xs zero bs j (omega arith)
clone_from_slice-outside [] (suc offset) bs j d = refl
clone_from_slice-outside (x ∷ xs) (suc offset) bs zero d = refl
clone_from_slice-outside (x ∷ xs) (suc offset) bs (suc j) d =
    clone_from_slice-outside xs offset bs j (omega arith)

At-cons :
    (x : ℕ) (xs : Bytes) (offset : ℕ) (bs : Bytes) → At xs offset bs → At (x ∷ xs) (suc offset) bs
At-cons x xs offset [] h = omega arith
At-cons x xs offset (b ∷ bs) h = (h.0, At-cons x xs (suc offset) bs h.1)

At-clone_from_slice :
    (xs : Bytes) (offset : ℕ) (bs : Bytes)
    → offset + length bs ≤ length xs
    → At (clone_from_slice xs offset bs) offset bs
unfolding clone_from_slice
At-clone_from_slice xs zero [] h = omega arith
At-clone_from_slice [] zero (b ∷ bs) h = absurd (omega arith)
At-clone_from_slice (x ∷ xs) zero (b ∷ bs) h =
    (refl, At-cons b _ zero bs (At-clone_from_slice xs zero bs (omega arith)))
At-clone_from_slice [] (suc offset) bs h = absurd (omega arith)
At-clone_from_slice (x ∷ xs) (suc offset) bs h =
    At-cons x _ offset bs (At-clone_from_slice xs offset bs (omega arith))

-- A copy into `padded`, which begins with `buffer` and has room for the bytes.
copy-padded :
    (buffer padded : Bytes) (offset : ℕ) (bytes : Bytes)
    → length buffer ≤ length padded
    → ((j : ℕ) → j < length buffer → get_elem? padded j ≡ get_elem? buffer j)
    → offset + length bytes ≤ length padded
    → At (clone_from_slice padded offset bytes) offset bytes
      × Frame buffer (clone_from_slice padded offset bytes) offset (offset + length bytes)
copy-padded buffer padded offset bytes longer same room = (
  At-clone_from_slice padded offset bytes room,
  record {
    grows = omega (arith, length-clone_from_slice padded offset bytes);
    same = λ j h d. clone_from_slice-outside padded offset bytes j d ∙ same j h;
  },
)

length-resize : (buffer : Bytes) (n : ℕ) → length buffer ≤ n → length (resize buffer n) ≡ n
unfolding resize
length-resize buffer n h = omega (
  arith,
  length-append {0} buffer (replicate (n - length buffer) 0),
  length-replicate {A = ℕ} (n - length buffer) 0,
)

write_buffer_stores :
    (buffer : Bytes) (offset : ℕ) (bytes : Bytes)
    → At (write_buffer buffer offset bytes) offset bytes
      × Frame buffer (write_buffer buffer offset bytes) offset (offset + length bytes)
unfolding write_buffer
write_buffer_stores buffer offset bytes =
    let end : ℕ = offset + length bytes in
    elim (Bool-cases (ltb (length buffer) end)) [
      | inl longer ↦
          let padded = length-resize buffer end (ground arith) in
          rw longer (
            copy-padded buffer (resize buffer end) offset bytes (ground arith)
              (λ j h. get_elem?-append_left buffer (replicate (end - length buffer) 0) j h)
              (omega arith))
      | inr fits ↦
          rw fits
            (copy-padded buffer buffer offset bytes (omega arith) (λ j h. refl) (ground arith))
    ]

length-write_buffer :
    (buffer : Bytes) (offset : ℕ) (bytes : Bytes) (end : ℕ)
    → length buffer ≤ end
    → offset + length bytes ≤ end
    → length (write_buffer buffer offset bytes) ≤ end
unfolding write_buffer
length-write_buffer buffer offset bytes end h k =
    let last : ℕ = offset + length bytes in
    elim (Bool-cases (ltb (length buffer) last)) [
      | inl longer ↦
          rw (longer, length-clone_from_slice (resize buffer last) offset bytes)
            (omega (arith, length-resize buffer last (ground arith)))
      | inr fits ↦ rw (fits, length-clone_from_slice buffer offset bytes) h
    ]

-- A write stores its bytes, changes nothing else that was there, and ends the buffer no later than
-- the buffer did or the write does.
pub record Written (buffer after : Bytes) (offset : ℕ) (bytes : Bytes) : Type 0 where
  pub stored : At after offset bytes
  pub frame : Frame buffer after offset (offset + length bytes)
  pub within : (end : ℕ) → length buffer ≤ end → offset + length bytes ≤ end → length after ≤ end

pub write_buffer-Written :
    (buffer : Bytes) (offset : ℕ) (bytes : Bytes)
    → Written buffer (write_buffer buffer offset bytes) offset bytes
write_buffer-Written buffer offset bytes =
    let (stored, frame) = write_buffer_stores buffer offset bytes in
    record { stored = stored; frame = frame; within = length-write_buffer buffer offset bytes }

At-tail :
    (x : ℕ) (buffer : Bytes) (offset : ℕ) (bytes : Bytes)
    → At (x ∷ buffer) (suc offset) bytes
    → At buffer offset bytes
At-tail x buffer offset [] h = omega arith
At-tail x buffer offset (b ∷ bytes) h = (h.0, At-tail x buffer (suc offset) bytes h.1)

-- What stands in a buffer is what a slice and a read of a number find.
At→take :
    (buffer : Bytes) (offset : ℕ) (bytes : Bytes)
    → At buffer offset bytes
    → take (length bytes) (drop offset buffer) ≡ bytes
At→take buffer offset [] h = refl
At→take [] offset (b ∷ bytes) h = cc (h.0)
At→take (x ∷ buffer) zero (b ∷ bytes) h =
    cc (h.0, At→take buffer zero bytes (At-tail x buffer zero bytes h.1))
At→take (x ∷ buffer) (suc offset) (b ∷ bytes) h =
    At→take buffer offset (b ∷ bytes) (At-tail x buffer offset (b ∷ bytes) h)

pub slice-At :
    (buffer : Bytes) (offset : ℕ) (bytes : Bytes)
    → At buffer offset bytes
    → slice offset (length bytes) buffer ≡ ok bytes
unfolding slice
slice-At buffer offset bytes h =
    ground (arith, At-length buffer offset bytes h, At→take buffer offset bytes h)

pub read_le-At :
    (buffer : Bytes) (w offset n : ℕ)
    → n < 256 ^ w
    → At buffer offset (to_le_bytes w n)
    → read_le w offset buffer ≡ ok n
unfolding read_le
read_le-At buffer w offset n fits h =
    let word = slice-At buffer offset (to_le_bytes w n) h in
    ground (arith, length-to_le_bytes w n, from_le_bytes-to_le_bytes w n)
