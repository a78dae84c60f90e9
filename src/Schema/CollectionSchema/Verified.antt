-- ===== src/Schema/CollectionSchema/Verified.antt =====
-- What a schema of a collection that was verified has.
use Prim.Native.String.{String}
use isar_core.Prelude.{
  ℕ, ◌+◌, ◌≤◌, ◌≡◌, refl, arith, Bool, true, false, not, ◌&&◌, ◌||◌, ltb, any, map, length, List,
  [], ◌∷◌, ◌++◌, ap, sym, ◌∙◌,
}
use isar_core.Error.{Result, ok, >>=-eq-ok}
use isar_core.Object.DataType.{DataType, is_type}
use isar_core.Schema.Names.{eq_string, count_unique}
use isar_core.Schema.CollectionSchema.{
  PropertySchema, CollectionSchema, refuse, verify_properties, verify,
}
use isar_core.Schema.CollectionSchema.Composite.{then_ok, refuse-ok}

-- No name is among those seen, or equals an earlier one.
abbrev pub AreDistinct : List String → List String → Type 0
AreDistinct seen [] = Unit {0}
AreDistinct seen (x ∷ xs) = (any (eq_string x) seen ≡ false) × AreDistinct (x ∷ seen) xs

count_unique-le : (seen xs : List String) → count_unique seen xs ≤ length xs
unfolding count_unique
count_unique-le seen [] = omega arith
count_unique-le seen (x ∷ xs) = ground (arith, count_unique-le (x ∷ seen) xs)

count_unique-AreDistinct :
    (seen xs : List String) → length xs ≤ count_unique seen xs → AreDistinct seen xs
unfolding count_unique
count_unique-AreDistinct seen [] h = tt
count_unique-AreDistinct seen (x ∷ xs) h = (
  ground (arith, count_unique-le (x ∷ seen) xs),
  count_unique-AreDistinct (x ∷ seen) xs (ground (arith, count_unique-le (x ∷ seen) xs)),
)

length-names :
    {A B : Type 0} (f : A → String) (g : B → String) (xs : List A) (ys : List B)
    → length (map f xs ++ map g ys) ≡ length xs + length ys
length-names f g [] [] = refl
length-names f g [] (y ∷ ys) = ground (arith, length-names f g [] ys)
length-names f g (x ∷ xs) ys = ground (arith, length-names f g xs ys)

enough : (names unique total : ℕ) → ltb unique total ≡ false → names ≡ total → names ≤ unique
enough names unique total h e = ground (arith, h, e)

-- The property of that name, with the type of ids.
abbrev pub is_id_property : String → PropertySchema → Bool
is_id_property id_property p = eq_string p.name id_property && is_type p.data_type DataType.long

long_id : (same long : Bool) → (same && not long) ≡ false → (same && long) ≡ same
long_id true true h = refl
long_id true false h = sym h
long_id false long h = refl

abbrev is_named : Result (Bool × List PropertySchema) → Bool
is_named (ok r) = r.0
is_named _ = false

eq_of_not : (b : Bool) → not b ≡ false → b ≡ true
eq_of_not true h = refl
eq_of_not false h = sym h

verify_properties-any :
    (id_property : String) (properties : List PropertySchema) {r : Bool × List PropertySchema}
    → verify_properties id_property properties ≡ ok r
    → any (is_id_property id_property) properties ≡ r.0
unfolding verify_properties
verify_properties-any id_property [] h = ap is_named h
verify_properties-any id_property (p ∷ properties) h =
    let (named, h₁) = then_ok _ _ h in
    let (long, h₂) = then_ok _ _ h₁ in
    let (rest, e, h₃) = >>=-eq-ok (verify_properties id_property properties) h₂ in
    ap (λ b. b || any (is_id_property id_property) properties)
      (long_id (eq_string p.name id_property) _ (refuse-ok _ _ long))
    ∙ ap (λ b. eq_string p.name id_property || b) (verify_properties-any id_property properties e)
    ∙ ap is_named h₃

-- In a schema that is accepted the names of properties and links differ from each other, and one property
-- has the name of the id property and the type of ids.
pub verify-AreDistinct :
    (col : CollectionSchema) {verified : CollectionSchema}
    → verify col ≡ ok verified
    → AreDistinct [] (map (λ p. p.name) col.properties ++ map (λ l. l.name) col.links)
      × (any (is_id_property col.id_property) col.properties ≡ true)
unfolding verify
verify-AreDistinct col h =
    let (named, h₁) = then_ok _ _ h in
    let (distinct, h₂) = then_ok _ _ h₁ in
    let (verified, e, h₃) = >>=-eq-ok (verify_properties col.id_property col.properties) h₂ in
    let (found, h₄) = then_ok (refuse (not (verified.0)) "Unknown ObjectId property") _ h₃ in
    (
      count_unique-AreDistinct [] _ (
          enough _ _ _ (refuse-ok _ _ distinct)
            (length-names (λ p. p.name) (λ l. l.name) col.properties col.links)),
      verify_properties-any col.id_property col.properties e ∙ eq_of_not _ (refuse-ok _ _ found),
    )
