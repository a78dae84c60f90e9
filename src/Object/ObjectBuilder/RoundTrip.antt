-- ===== src/Object/ObjectBuilder/RoundTrip.antt =====
-- An object that the builder finishes reads back every value that was written.
use isar_core.Prelude.{ℕ, ◌+◌, ◌%◌, ◌^◌, ◌≤◌, ◌<◌, ◌≡◌, refl, ap, inl, arith}
use isar_core.Prelude.{none, List, [], ◌∷◌, length, All, lt→ltb, ==_iff}
use isar_core.Prelude.Bytes.{Bytes, to_le_bytes, length-to_le_bytes}
use isar_core.Error.{ok}
use isar_core.Object.DataType.{get_static_size-pos}
use isar_core.Object.ObjectInfo.{ObjectInfo}
use isar_core.Object.IsarObject.{IsarObject, from_bytes, read_le}
use isar_core.Object.ObjectBuilder.{ObjectBuilder, new, finish}
use isar_core.Object.ObjectBuilder.Buffer.{At, read_le-At, write_buffer-Written}
use isar_core.Object.ObjectBuilder.Value.{Value, IsValid, read, static}
use isar_core.Object.ObjectBuilder.Stored.{Stored, in_place}
use isar_core.Object.ObjectBuilder.ReadValue.{read-Stored}
use isar_core.Object.ObjectBuilder.WriteAll.{
  Fields, write_all, HaveTypes, IsApart, IsLaidOut, total_size, StoredAll, Wrote, write_all_lem,
}

-- What `read` finds at each property.
abbrev pub ReadsBack : IsarObject → Fields → List Value → Type 0
ReadsBack o [] vs = Unit {0}
ReadsBack o ((name, p) ∷ ps) [] = Unit {0}
ReadsBack o ((name, p) ∷ ps) (v ∷ vs) = (read o p ≡ ok v) × ReadsBack o ps vs

ReadsBack-StoredAll :
    (o : IsarObject) (ps : Fields) (vs : List Value)
    → 0 < o.static_size
    → HaveTypes ps vs
    → IsLaidOut o.static_size ps
    → All IsValid vs
    → StoredAll o.bytes o.static_size ps vs
    → ReadsBack o ps vs
ReadsBack-StoredAll o [] vs positive types laid valid stored = tt
ReadsBack-StoredAll o (p ∷ ps) [] positive types laid valid stored = tt
ReadsBack-StoredAll o ((name, p) ∷ ps) (v ∷ vs) positive types laid valid stored =
    let inside = lt→ltb p.offset o.static_size (omega (arith, get_static_size-pos p.data_type)) in
    (
      rw types.0 (read-Stored o o.static_size positive p.offset inside v valid.0 stored.0),
      ReadsBack-StoredAll o ps vs positive types.1 laid.3 valid.1 stored.1,
    )

IsApart-size : (lo : ℕ) (ps : Fields) → IsLaidOut lo ps → All (IsApart 0 2) ps
IsApart-size lo [] laid = tt
IsApart-size lo (p ∷ ps) laid = (inl laid.0, IsApart-size lo ps laid.3)

Stored→At :
    {buffer : Bytes} {lo offset : ℕ} {bytes : Bytes}
    → Stored buffer lo offset (static bytes)
    → At buffer offset bytes
Stored→At (in_place h) = h

finish-Wrote :
    (info : ObjectInfo) (vs : List Value) (ob : ObjectBuilder)
    → IsLaidOut info.static_size info.properties
    → info.static_size < 2 ^ 16
    → Wrote info.static_size (new info none) ob info.properties vs
    → finish ob ≡ ok (record { bytes = ob.buffer; static_size = info.static_size })
unfolding new finish from_bytes
finish-Wrote info vs ob laid most wrote =
    let size : ℕ = info.static_size in
    let w = write_buffer-Written [] 0 (to_le_bytes 2 (size % 2 ^ 16)) in
    let header =
      wrote.keeps 0 (static (to_le_bytes 2 (size % 2 ^ 16)))
        (rw (length-to_le_bytes 2 (size % 2 ^ 16)) (IsApart-size size info.properties laid))
        (in_place w.stored) in
    let complete : ob.property_index ≡ length ob.object_info.properties =
      omega (arith, wrote.index, ap (λ (i : ObjectInfo). length i.properties) wrote.same_info) in
    let number : read_le 2 0 ob.buffer ≡ ok (size % 2 ^ 16) =
      read_le-At ob.buffer 2 0 (size % 2 ^ 16) (omega arith) (Stored→At header) in
    rw ((==_iff ob.property_index (length ob.object_info.properties)).1 complete, number)
      (ap (λ (n : ℕ). ok (record { bytes = ob.buffer; static_size = n })) (omega arith))

-- Take properties that lie in the static part without overlap, one valid value of its type for each
-- of them, a static part of 2 to 65535 bytes and an object of less than 2 ^ 32 bytes. Then no write
-- panics, the builder finishes, and every property of the object reads back its value.
pub read-write_all :
    (info : ObjectInfo) (vs : List Value)
    → IsLaidOut info.static_size info.properties
    → HaveTypes info.properties vs
    → All IsValid vs
    → 2 ≤ info.static_size
    → info.static_size < 2 ^ 16
    → info.static_size + total_size vs < 2 ^ 32
    → (ob : ObjectBuilder) × (write_all (new info none) vs ≡ ok ob)
      × (o : IsarObject) × (finish ob ≡ ok o)
      × ReadsBack o info.properties vs
unfolding new
read-write_all info vs laid types valid least most fits =
    let size : ℕ = info.static_size in
    let header : Bytes = to_le_bytes 2 (size % 2 ^ 16) in
    let n = length-to_le_bytes 2 (size % 2 ^ 16) in
    let w = write_buffer-Written [] 0 header in
    let (ob, done, wrote) =
      write_all_lem size info.properties vs (new info none) refl types laid (omega arith)
        (w.within size (omega arith) (omega arith)) fits in
    let o : IsarObject = record { bytes = ob.buffer; static_size = size } in
    (
      ob,
      done,
      o,
      finish-Wrote info vs ob laid most wrote,
      ReadsBack-StoredAll o info.properties vs (omega arith) types laid valid wrote.stored,
    )
