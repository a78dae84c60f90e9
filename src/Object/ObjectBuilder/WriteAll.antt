-- ===== src/Object/ObjectBuilder/WriteAll.antt =====
-- Writing one value for each property leaves every value standing in the buffer.
use Prim.Native.String.{String}
use isar_core.Prelude.{ℕ, zero, suc, ◌+◌, ◌^◌, ◌≤◌, ◌<◌, ◌≡◌, refl, ap, sym, ◌∙◌, ◌⊎◌, arith}
use isar_core.Prelude.{some, List, [], ◌∷◌, length, All, drop, get_elem?}
use isar_core.Prelude.Bytes.{Bytes}
use isar_core.Error.{Result, ok, ◌>>=◌}
use isar_core.Object.DataType.{get_static_size, is_type_refl}
use isar_core.Object.ObjectInfo.{Property}
use isar_core.Object.ObjectBuilder.{ObjectBuilder, next_of_type}
use isar_core.Object.ObjectBuilder.Value.{
  Value, type_of, write, Form, form, width, dynamic_size, width-form,
}
use isar_core.Object.ObjectBuilder.Stored.{Stored, Stored-frame}
use isar_core.Object.ObjectBuilder.Put.{put, write-put, put_lem}

abbrev pub Fields : Type 0
Fields = List (String × Property)

-- One value for each property, in the order of the properties.
unfoldable pub write_all : ObjectBuilder → List Value → Result ObjectBuilder
write_all ob [] = ok ob
write_all ob (v ∷ vs) = do ob' ← write ob v; write_all ob' vs

abbrev pub HaveTypes : Fields → List Value → Type 0
HaveTypes [] [] = Unit {0}
HaveTypes ((name, p) ∷ ps) (v ∷ vs) = (p.data_type ≡ type_of v) × HaveTypes ps vs
HaveTypes _ _ = ⊥

abbrev pub end_of : Property → ℕ
end_of p = p.offset + get_static_size p.data_type

abbrev pub IsApart : ℕ → ℕ → String × Property → Type 0
IsApart offset wide (name, q) = (offset + wide ≤ q.offset) ⊎ (end_of q ≤ offset)

-- The properties lie between the two bytes of the size and the end of the static part, and no two
-- of them overlap. They need not be in order.
abbrev pub IsLaidOut : ℕ → Fields → Type 0
IsLaidOut size [] = Unit {0}
IsLaidOut size ((name, p) ∷ ps) =
    (2 ≤ p.offset)
    × (end_of p ≤ size)
    × All (IsApart p.offset (get_static_size p.data_type)) ps
    × IsLaidOut size ps

abbrev pub total_size : List Value → ℕ
total_size [] = 0
total_size (v ∷ vs) = dynamic_size (form v) + total_size vs

abbrev pub StoredAll : Bytes → ℕ → Fields → List Value → Type 0
StoredAll buffer lo [] vs = Unit {0}
StoredAll buffer lo ((name, p) ∷ ps) [] = Unit {0}
StoredAll buffer lo ((name, p) ∷ ps) (v ∷ vs) =
    Stored buffer lo p.offset (form v) × StoredAll buffer lo ps vs

drop-cons {ℓ} :
    {A : Type ℓ} (xs : List A) (n : ℕ) {y : A} {ys : List A}
    → drop n xs ≡ y ∷ ys
    → (get_elem? xs n ≡ some y) × (drop (n + 1) xs ≡ ys)
drop-cons [] zero h = absurd (ground arith)
drop-cons [] (suc n) h = absurd (ground arith)
drop-cons (x ∷ xs) zero h = ground arith
drop-cons (x ∷ xs) (suc n) h = ground (arith, drop-cons xs n h)

-- The builder behind the next property, where that is of the wanted type.
next_of_type_lem :
    (ob : ObjectBuilder) (name : String) (p : Property)
    → get_elem? ob.object_info.properties ob.property_index ≡ some (name, p)
    → next_of_type ob p.data_type ≡ ok (p, record ob { property_index = ob.property_index + 1 })
unfolding next_of_type
next_of_type_lem ob name p h = rw (h, is_type_refl p.data_type)

pub record Wrote (lo : ℕ) (ob after : ObjectBuilder) (ps : Fields) (vs : List Value) : Type 0 where
  pub same_info : after.object_info ≡ ob.object_info
  pub index : after.property_index ≡ ob.property_index + length ps
  pub keeps :
      (offset : ℕ) (f : Form)
      → All (IsApart offset (width f)) ps
      → Stored ob.buffer lo offset f
      → Stored after.buffer lo offset f
  pub stored : StoredAll after.buffer lo ps vs

pub write_all_lem :
    (lo : ℕ) (ps : Fields) (vs : List Value) (ob : ObjectBuilder)
    → drop ob.property_index ob.object_info.properties ≡ ps
    → HaveTypes ps vs
    → IsLaidOut lo ps
    → lo ≤ ob.dynamic_offset
    → length ob.buffer ≤ ob.dynamic_offset
    → ob.dynamic_offset + total_size vs < 2 ^ 32
    → (after : ObjectBuilder) × (write_all ob vs ≡ ok after) × Wrote lo ob after ps vs
unfolding write_all
write_all_lem lo [] [] ob e types laid behind within fits = (
  ob,
  refl,
  record { same_info = refl; index = omega arith; keeps = λ offset f apart h. h; stored = tt },
)
write_all_lem lo [] (v ∷ vs) ob e types laid behind within fits = absurd types
write_all_lem lo (p ∷ ps) [] ob e types laid behind within fits = absurd types
write_all_lem lo ((name, p) ∷ ps) (v ∷ vs) ob e types laid behind within fits =
    let next : ObjectBuilder = record ob { property_index = ob.property_index + 1 } in
    let (here, rest) = drop-cons ob.object_info.properties ob.property_index e in
    let wide : width (form v) ≡ get_static_size p.data_type =
      width-form v ∙ ap get_static_size (sym types.0) in
    let (stored, kept) = put_lem lo next p.offset v behind within (omega arith) (omega arith) in
    let step : write ob v ≡ ok (put next p.offset v) =
      write-put ob v ∙ rw (← types.0, next_of_type_lem ob name p here) in
    let (after, done, wrote) =
      write_all_lem lo ps vs (put next p.offset v) (rw (kept.same_index, kept.same_info) rest)
        types.1 laid.3 (omega (arith, kept.grown)) kept.within (omega (arith, kept.grown)) in
    (
      after,
      rw step done,
      record {
        same_info = wrote.same_info ∙ kept.same_info;
        index = omega (arith, wrote.index, kept.same_index);
        keeps = λ offset f apart h.
            wrote.keeps offset f apart.1 (Stored-frame kept.frame (omega arith) (omega arith) h);
        stored = (wrote.keeps p.offset (form v) (rw wide laid.2) stored, wrote.stored);
      },
    )
