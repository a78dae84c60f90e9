-- ===== src/Schema/CollectionSchema/Composite.antt =====
-- Which composite indexes a schema may have.
use isar_core.Prelude.{◌≤◌, ◌≡◌, refl, arith}
use isar_core.Prelude.{
  Bool, true, false, not, ◌&&◌, ltb, ◌==◌, Option, none, some, List, [], ◌∷◌, length,
}
use Prim.Native.String.{String}
use isar_core.Error.{Result, ok, err, panic, ◌>>◌, schema_error}
use isar_core.Object.DataType.{DataType, is_type, is_dynamic}
use isar_core.Index.Types.{IndexType}
use isar_core.Schema.Names.{eq_string, find}
use isar_core.Schema.CollectionSchema.{
  PropertySchema, IndexPropertySchema, IndexSchema, refuse, is_value, is_value_or_words, is_some,
  differs, verify_named_property, verify_index_property, verify_index_properties, verify_index,
}

pub then_ok :
    {B : Type 0} (m : Result (Unit {0})) (rest : Result B) {b : B}
    → (m >> rest) ≡ ok b
    → (m ≡ ok tt) × (rest ≡ ok b)
then_ok (ok tt) rest h = (refl, h)
then_ok (err e) rest h = cc
then_ok panic rest h = cc

pub refuse-ok : (b : Bool) (message : String) → refuse b message ≡ ok tt → b ≡ false
refuse-ok true message h = cc
refuse-ok false message h = refl

-- The schema of the property that an index names is that of a string.
abbrev pub IsString : List PropertySchema → IndexPropertySchema → Type 0
IsString properties ip =
    (p : PropertySchema) × (find (λ p. eq_string p.name ip.name) properties ≡ some p)
    × (is_type p.data_type DataType.string ≡ true)

-- All but the last.
abbrev pub AllButLast : (IndexPropertySchema → Type 0) → List IndexPropertySchema → Type 0
AllButLast P [] = Unit {0}
AllButLast P (ip ∷ []) = Unit {0}
AllButLast P (ip ∷ next ∷ ips) = P ip × AllButLast P (next ∷ ips)

named_hash_string :
    (ip : IndexPropertySchema) (p : PropertySchema)
    → verify_named_property false ip p ≡ ok tt
    → (ip.index_type ≡ IndexType.hash) × (is_type p.data_type DataType.string ≡ true)
unfolding verify_named_property
named_hash_string ip p h =
    let (a, h₁) =
      then_ok (refuse (is_dynamic p.data_type && not (is_type p.data_type DataType.string)) _) _
        h in
    let (b, h₂) =
      then_ok (refuse (not (is_type p.data_type DataType.string) && not (is_value ip.index_type)) _)
        _ h₁ in
    let (c, d) =
      then_ok (refuse (differs (is_type p.data_type DataType.string) (is_some ip.case_sensitive)) _)
        _ h₂ in
    by_type ip.index_type (is_type p.data_type DataType.string) (refuse-ok _ _ d) (refuse-ok _ _ b)
  where
    by_type :
        (t : IndexType) (s : Bool)
        → (is_value_or_words t && not false) ≡ false
        → (not s && not (is_value t)) ≡ false
        → (t ≡ IndexType.hash) × (s ≡ true)
    by_type IndexType.value s e f = cc
    by_type IndexType.words s e f = cc
    by_type IndexType.hash true e f = (refl, refl)
    by_type IndexType.hash false e f = cc

hash-IsString :
    (properties : List PropertySchema) (ip : IndexPropertySchema)
    → verify_index_property properties false ip ≡ ok tt
    → (ip.index_type ≡ IndexType.hash) × IsString properties ip
unfolding verify_index_property
hash-IsString properties ip h = by_find (find (λ p. eq_string p.name ip.name) properties) refl h
  where
    by_find :
        (o : Option PropertySchema)
        → find (λ p. eq_string p.name ip.name) properties ≡ o
        → (elim o [
          | none ↦ err (schema_error "Index property does not exist")
          | some p ↦ verify_named_property false ip p
        ])
          ≡ ok tt
        → (ip.index_type ≡ IndexType.hash) × IsString properties ip
    by_find none e k = cc
    by_find (some p) e k = let (a, b) = named_hash_string ip p k in (a, (p, e, b))

verify_index_properties-AllButLast :
    (properties : List PropertySchema) (ips : List IndexPropertySchema)
    → verify_index_properties properties ips ≡ ok tt
    → AllButLast (λ ip. (ip.index_type ≡ IndexType.hash) × IsString properties ip) ips
unfolding verify_index_properties
verify_index_properties-AllButLast properties [] h = tt
verify_index_properties-AllButLast properties (ip ∷ []) h = tt
verify_index_properties-AllButLast properties (ip ∷ next ∷ ips) h =
    let (here, rest) =
      then_ok (verify_index_property properties false ip)
        (verify_index_properties properties (next ∷ ips)) h in
    (
      hash-IsString properties ip here,
      verify_index_properties-AllButLast properties (next ∷ ips) rest,
    )

-- An index that passes the verification has one to three properties, and all of them but the last are hashed
-- strings: an index on a number and something else behind it is always refused.
pub verify_index-AllButLast :
    (properties : List PropertySchema) (index : IndexSchema)
    → verify_index properties index ≡ ok tt
    → (1 ≤ length index.properties)
      × (length index.properties ≤ 3)
      × AllButLast
          (λ ip. (ip.index_type ≡ IndexType.hash) × IsString properties ip)
          index.properties
unfolding verify_index
verify_index-AllButLast properties index h =
    let (some_property, rest) = then_ok (refuse (length index.properties == 0) _) _ h in
    let (few, all) = then_ok (refuse (ltb 3 (length index.properties)) _) _ rest in
    (
      ground (arith, refuse-ok (length index.properties == 0) _ some_property),
      ground (arith, refuse-ok (ltb 3 (length index.properties)) _ few),
      verify_index_properties-AllButLast properties index.properties all,
    )
