-- ===== src/Index/CreateKeys/Order.antt =====
-- The keys of two objects in an index compare as the objects do by the properties of the index.
use isar_core.Prelude.{ℕ, ◌≡◌, refl, sym, ap, ◌∙◌, arith, compare, Ordering}
use isar_core.Prelude.{Bool, true, Option, none, some, List, [], ◌∷◌, ◌++◌, map}
use isar_core.Prelude.Int.{ℤ, IsI32, IsI64, compare_ℤ}
use isar_core.Prelude.Bytes.{Bytes, compare_bytes, compare_bytes-append_same, then_compare}
use isar_core.Error.{ok}
use isar_core.Object.DataType.{DataType}
use isar_core.Object.IsarObject.{IsarObject, read_byte, read_int, read_long, read_string}
use isar_core.Object.IsarObject.Compare.{compare_property, compare_strings}
use isar_core.Query.Sort.{Sort, compare_objects, directed}
use isar_core.Index.Hashing.{Hashing, Unicode}
use isar_core.Index.Types.{IndexType, IndexProperty, Index, get_prefix}
use isar_core.Index.IndexKey.{
  IndexKey, with_buffer, add_byte, add_int, add_long, add_string_value, add_string_hash,
}
use isar_core.Index.IndexKey.Numbers.{compare-add_byte, compare-add_int, compare-add_long}
use isar_core.Index.IndexKey.Strings.{ShortOption, compare-add_string_value}
use isar_core.Index.CreateKeys.{add_property, add_properties, create_single_key}
use mathlib.Core.List.{append_assoc, append-nil}

-- A value whose keys are ordered, or a hashed string.
pub data Field : Type 0 where
  byte : ℕ → Field
  int long : ℤ → Field
  string : Option Bytes → Field
  hashed : Option Bytes → Bool → Field

-- A hashed string comes with the same string: its keys are not ordered.
abbrev pub SameHashed : List Field → List Field → Type 0
SameHashed (hashed s c ∷ fs) (hashed t d ∷ gs) = (s ≡ t) × SameHashed fs gs
SameHashed (f ∷ fs) (g ∷ gs) = SameHashed fs gs
SameHashed _ _ = Unit {0}

-- What the property of an index holds in an object, as the readers see it.
abbrev pub Holds : IsarObject → IndexProperty → Field → Type 0
Holds o ip (byte n) = (ip.property.data_type ≡ DataType.byte) × (read_byte o ip.property ≡ ok n)
Holds o ip (int z) =
    (ip.property.data_type ≡ DataType.int) × (read_int o ip.property ≡ ok z) × IsI32 z
Holds o ip (long z) =
    (ip.property.data_type ≡ DataType.long) × (read_long o ip.property ≡ ok z) × IsI64 z
Holds o ip (string s) =
    (ip.property.data_type ≡ DataType.string)
    × (ip.index_type ≡ IndexType.value)
    × (ip.case_sensitive ≡ some true)
    × (read_string o ip.property ≡ ok s)
    × ShortOption s
Holds o ip (hashed s case_sensitive) =
    (ip.property.data_type ≡ DataType.string)
    × (ip.index_type ≡ IndexType.hash)
    × (ip.case_sensitive ≡ some case_sensitive)
    × (read_string o ip.property ≡ ok s)

abbrev pub AllHold : IsarObject → List IndexProperty → List Field → Type 0
AllHold o [] [] = Unit {0}
AllHold o [] (f ∷ fs) = ⊥
AllHold o (ip ∷ ips) [] = ⊥
AllHold o (ip ∷ ips) (f ∷ fs) = Holds o ip f × AllHold o ips fs

SameHashed-cons :
    (f g : Field) (fs gs : List Field)
    → SameHashed (f ∷ fs) (g ∷ gs)
    → SameHashed (f ∷ []) (g ∷ []) × SameHashed fs gs
SameHashed-cons (hashed s c) (hashed t d) fs gs (same, rest) = ((same, tt), rest)
SameHashed-cons f g fs gs same = (tt, same)

case_same : {c d : Bool} → some c ≡ some d → c ≡ d
case_same e = ap flag e
  where
    flag : Option Bool → Bool
    flag none = true
    flag (some b) = b

compare_bytes-same : (s : Bytes) → compare_bytes s s ≡ Ordering.eq
unfolding compare_bytes
compare_bytes-same [] = refl
compare_bytes-same (b ∷ s) = ground (arith, compare_bytes-same s)

compare_strings-same : (s t : Option Bytes) → s ≡ t → compare_strings s t ≡ Ordering.eq
compare_strings-same s t e = ap (compare_strings s) (sym e) ∙ itself s
  where
    itself : (s : Option Bytes) → compare_strings s s ≡ Ordering.eq
    itself none = unfold compare_strings in refl
    itself (some s) = unfold compare_strings in compare_bytes-same s

module _ (u : Unicode) (h : Hashing) (index : Index) where
  abbrev bare : IndexKey
  bare = record { index = index; bytes = [] }

  -- What a value adds to a key.
  abbrev part : Field → Bytes
  part (byte n) = (add_byte bare n).bytes
  part (int z) = (add_int bare z).bytes
  part (long z) = (add_long bare z).bytes
  part (string s) = (add_string_value u h bare s true).bytes
  part (hashed s case_sensitive) = (add_string_hash u h bare s case_sensitive).bytes

  abbrev parts : List Field → Bytes
  parts [] = []
  parts (f ∷ fs) = part f ++ parts fs

  add_property-part :
      (o : IsarObject) (bytes : Bytes) (ip : IndexProperty) (f : Field)
      → Holds o ip f
      → add_property u h o (record { index = index; bytes = bytes }) ip
        ≡ ok (record { index = index; bytes = bytes ++ part f })
  unfolding add_property add_byte add_int add_long add_string_value add_string_hash
  add_property-part o bytes ip (byte n) (t, r) = ground (arith, t, r)
  add_property-part o bytes ip (int z) (t, r, _) = ground arith
  add_property-part o bytes ip (long z) (t, r, _) = ground arith
  add_property-part o bytes ip (string none) (t, i, c, r, _) = ground arith
  add_property-part o bytes ip (string (some s)) (t, i, c, r, _) = ground arith
  add_property-part o bytes ip (hashed none case_sensitive) (t, i, c, r) = ground arith
  add_property-part o bytes ip (hashed (some s) case_sensitive) (t, i, c, r) = ground arith

  add_properties-parts :
      (o : IsarObject) (bytes : Bytes) (ips : List IndexProperty) (fs : List Field)
      → AllHold o ips fs
      → add_properties u h o (record { index = index; bytes = bytes }) ips
        ≡ ok (record { index = index; bytes = bytes ++ parts fs })
  unfolding add_properties
  add_properties-parts o bytes [] [] _ = rw (append-nil bytes) refl
  add_properties-parts o bytes [] (f ∷ fs) h = elim h [ ]
  add_properties-parts o bytes (ip ∷ ips) [] h = elim h [ ]
  add_properties-parts o bytes (ip ∷ ips) (f ∷ fs) (here, there) =
      rw
        (
          add_property-part o bytes ip f here,
          add_properties-parts o (bytes ++ part f) ips fs there,
          append_assoc bytes (part f) (parts fs),
        )
        refl

  compare-part :
      (a b : IsarObject) (ip : IndexProperty) (f g : Field) (xs ys : Bytes)
      → Holds a ip f
      → Holds b ip g
      → SameHashed (f ∷ []) (g ∷ [])
      → (ord : Ordering) × (compare_property a b ip.property ≡ ok ord)
        × (compare_bytes (part f ++ xs) (part g ++ ys) ≡ then_compare ord (compare_bytes xs ys))
  unfolding compare_property
  compare-part a b ip (byte m) (byte n) xs ys (t, r) (_, s) same =
      (compare m n, ground (arith, t, r, s), compare-add_byte bare m n xs ys)
  compare-part a b ip (int m) (int n) xs ys (t, r, i) (_, s, j) same =
      (compare_ℤ m n, ground (arith, t, r, s), compare-add_int bare m n xs ys i j)
  compare-part a b ip (long m) (long n) xs ys (t, r, i) (_, s, j) same =
      (compare_ℤ m n, ground (arith, t, r, s), compare-add_long bare m n xs ys i j)
  compare-part a b ip (string m) (string n) xs ys (t, _, _, r, i) (_, _, _, s, j) same = (
    compare_strings m n,
    ground (arith, t, r, s),
    compare-add_string_value u h bare m n xs ys i j,
  )
  compare-part a b ip (hashed m c) (hashed n d) xs ys (t, _, k, r) (_, _, k', s) (same, _) =
      let kept : part (hashed m c) ≡ part (hashed n d) =
        ap (λ v. part (hashed v c)) same ∙ ap (λ v. part (hashed n v)) (case_same (sym k ∙ k')) in
      let compared : compare_property a b ip.property ≡ ok (compare_strings m n) =
        ground (arith, t, r, s) in
      (
        Ordering.eq,
        compared ∙ ap ok (compare_strings-same m n same),
        rw kept (compare_bytes-append_same (part (hashed n d)) xs ys),
      )
  compare-part a b ip _ _ xs ys hf hg same = absurd (ground (arith, hf, hg))

  compare_objects-parts :
      (a b : IsarObject) (ips : List IndexProperty) (fs gs : List Field)
      → AllHold a ips fs
      → AllHold b ips gs
      → SameHashed fs gs
      → compare_objects (map (λ ip. (ip.property, Sort.ascending)) ips) a b
        ≡ ok (compare_bytes (parts fs) (parts gs))
  unfolding compare_objects compare_bytes directed
  compare_objects-parts a b [] [] [] _ _ _ = refl
  compare_objects-parts a b (ip ∷ ips) (f ∷ fs) (g ∷ gs) (hf, hfs) (hg, hgs) same =
      let (here, there) = SameHashed-cons f g fs gs same in
      let (ord, e, e') = compare-part a b ip f g (parts fs) (parts gs) hf hg here in
      rw (e, e') (ground (arith, compare_objects-parts a b ips fs gs hfs hgs there))
  compare_objects-parts a b _ _ _ x y same = ground (arith, x, y)

  -- Two objects whose indexed properties hold bytes, ints, longs, or null or short strings (shorter than
  -- 1024 bytes, without the byte 0, in a case-sensitive value index) have keys in the index, and the
  -- keys compare as the objects do when they are sorted by the properties of the index, ascending. An index
  -- may also hash strings, of any length and with or without case, as a composite index does with all but
  -- its last property: then this holds for objects with the same strings in the hashed properties.
  pub create_single_key-compare_objects :
      (a b : IsarObject) (buffer_a buffer_b : Bytes) (fs gs : List Field)
      → AllHold a index.properties fs
      → AllHold b index.properties gs
      → SameHashed fs gs
      → (key_a : Bytes) × (key_b : Bytes) × (create_single_key u h index a buffer_a ≡ ok key_a)
        × (create_single_key u h index b buffer_b ≡ ok key_b)
        × (compare_objects (map (λ ip. (ip.property, Sort.ascending)) index.properties) a b
            ≡ ok (compare_bytes key_a key_b))
  unfolding create_single_key with_buffer
  create_single_key-compare_objects a b buffer_a buffer_b fs gs ha hb same = (
    get_prefix index ++ parts fs,
    get_prefix index ++ parts gs,
    rw (add_properties-parts a (get_prefix index) index.properties fs ha) refl,
    rw (add_properties-parts b (get_prefix index) index.properties gs hb) refl,
    rw (compare_bytes-append_same (get_prefix index) (parts fs) (parts gs))
        (compare_objects-parts a b index.properties fs gs ha hb same),
  )
