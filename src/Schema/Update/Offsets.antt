-- ===== src/Schema/Update/Offsets.antt =====
-- Where new properties are laid out.
use isar_core.Prelude.{ℕ, ◌+◌, ◌≤◌, ◌≡◌, refl, sym, ◌∙◌, inl, inr, arith}
use isar_core.Prelude.{Option, none, some, List, [], ◌∷◌, All, Option-cases}
use Prim.Native.Nat.{max}
use isar_core.Error.{ok, >>=-eq-ok, unwrap}
use isar_core.Object.DataType.{get_static_size}
use isar_core.Schema.Names.{eq_string, find}
use isar_core.Schema.CollectionSchema.{PropertySchema}
use isar_core.Schema.Update.{max_end, find_next_offset, assign_offsets}

-- The stored property of a name.
abbrev pub stored : List PropertySchema → PropertySchema → Option PropertySchema
stored existing p = find (λ i. eq_string i.name p.name) existing

-- Both properties have their offsets, and the first ends where the second begins, or before.
abbrev pub EndsBefore : PropertySchema → PropertySchema → Type 0
EndsBefore p q =
    (o : ℕ) × (o' : ℕ) × (p.offset ≡ some o)
    × (q.offset ≡ some o')
    × (o + get_static_size p.data_type ≤ o')

-- Each new property ends before the new ones behind it.
abbrev pub NewInOrder : List PropertySchema → List PropertySchema → Type 0
NewInOrder existing [] = Unit {0}
NewInOrder existing (p ∷ ps) =
    (stored existing p ≡ none
      → All (λ (q : PropertySchema). stored existing q ≡ none → EndsBefore p q) ps)
    × NewInOrder existing ps

unwrap-ok : (o : Option ℕ) (n : ℕ) → unwrap o ≡ ok n → o ≡ some n
unwrap-ok none n h = cc
unwrap-ok (some m) n h = cc

-- The offset that is computed is behind all properties.
max_end-ends :
    (acc m : ℕ) (ps : List PropertySchema)
    → max_end acc ps ≡ ok m
    → (acc ≤ m)
      × All
          (λ (p : PropertySchema).
            (o : ℕ) × (p.offset ≡ some o) × (o + get_static_size p.data_type ≤ m))
          ps
unfolding max_end
max_end-ends acc m [] h = (ground (arith, h), tt)
max_end-ends acc m (p ∷ ps) h =
    let (o, e, rest) = >>=-eq-ok (unwrap p.offset) h in
    let (bound, ends) = max_end-ends (max acc (o + get_static_size p.data_type)) m ps rest in
    (omega (arith, bound), ((o, unwrap-ok p.offset o e, omega (arith, bound)), ends))

find_next_offset-ends :
    (next : ℕ) (ps : List PropertySchema)
    → find_next_offset ps ≡ ok next
    → All
        (λ (p : PropertySchema).
          (o : ℕ) × (p.offset ≡ some o) × (o + get_static_size p.data_type ≤ next))
        ps
unfolding find_next_offset
find_next_offset-ends next [] h = tt
find_next_offset-ends next (p ∷ ps) h = (max_end-ends 0 next (p ∷ ps) h).1

module _ (existing : List PropertySchema) where
  -- Each new property begins at an offset or behind it.
  abbrev NewFrom : ℕ → List PropertySchema → Type 0
  NewFrom next ps =
      All
        (λ (q : PropertySchema).
          stored existing q ≡ none → (o : ℕ) × (q.offset ≡ some o) × (next ≤ o))
        ps

  NewFrom-later :
      (low high : ℕ) (ps : List PropertySchema) → low ≤ high → NewFrom high ps → NewFrom low ps
  NewFrom-later low high [] h k = tt
  NewFrom-later low high (q ∷ ps) h (here, rest) = (
    (λ new. let (o, e, b) = here new in (o, e, omega (arith, b, h))),
    NewFrom-later low high ps h rest,
  )

  -- One step of the loop, by what is stored.
  assign_offsets-stored :
      (next : ℕ) (p e : PropertySchema) (ps : List PropertySchema)
      → stored existing p ≡ some e
      → assign_offsets existing next (p ∷ ps)
        ≡ record p { offset = e.offset } ∷ assign_offsets existing next ps
  unfolding assign_offsets
  assign_offsets-stored next p e ps h = rw (assign_offsets, h) refl

  assign_offsets-new :
      (next : ℕ) (p : PropertySchema) (ps : List PropertySchema)
      → stored existing p ≡ none
      → assign_offsets existing next (p ∷ ps)
        ≡ record p { offset = some next }
          ∷ assign_offsets existing (next + get_static_size p.data_type) ps
  unfolding assign_offsets
  assign_offsets-new next p ps h = rw (assign_offsets, h) refl

  -- The stored properties of a list keep their offsets.
  abbrev pub Kept : List PropertySchema → Type 0
  Kept ps =
      All
        (λ (q : PropertySchema).
          (e : PropertySchema) → stored existing q ≡ some e → q.offset ≡ e.offset)
        ps

  some_ne_none :
      (p e : PropertySchema) {A : Type 0}
      → stored existing p ≡ some e
      → stored existing p ≡ none
      → A
  some_ne_none p e h k = cc

  new_before :
      (next : ℕ) (p : PropertySchema) (ps : List PropertySchema)
      → NewFrom (next + get_static_size p.data_type) ps
      → All
          (λ (q : PropertySchema).
            stored existing q ≡ none → EndsBefore (record p { offset = some next }) q)
          ps
  new_before next p [] h = tt
  new_before next p (q ∷ ps) (here, rest) =
      ((λ new. let (o, e, b) = here new in (next, o, refl, e, b)), new_before next p ps rest)

  assign_offsets-laid_out :
      (next : ℕ) (ps : List PropertySchema)
      → NewFrom next (assign_offsets existing next ps)
        × NewInOrder existing (assign_offsets existing next ps)
        × Kept (assign_offsets existing next ps)
  assign_offsets-laid_out next [] = unfold assign_offsets in (tt, tt, tt)
  assign_offsets-laid_out next (p ∷ ps) = elim (Option-cases (stored existing p)) [
    | inl h ↦
        let (a, b, c) = assign_offsets-laid_out (next + get_static_size p.data_type) ps in
        rw (assign_offsets-new next p ps h) (
          (
            (λ new. (next, refl, omega arith)),
            NewFrom-later next (next + get_static_size p.data_type) _ (omega arith) a,
          ),
          ((λ new. new_before next p _ a), b),
          ((λ e k. some_ne_none p e k h), c),
        )
    | inr found ↦
        let (e, h) = found in
        let (a, b, c) = assign_offsets-laid_out next ps in
        rw (assign_offsets-stored next p e ps h) (
          ((λ new. some_ne_none p e h new), a),
          ((λ new. some_ne_none p e h new), b),
          ((λ e' k. same_offset e e' (sym h ∙ k)), c),
        )
  ]
    where
      same_offset : (e e' : PropertySchema) → some e ≡ some e' → e.offset ≡ e'.offset
      same_offset e e' h = cc

  stored_before :
      (next o : ℕ) (q : PropertySchema) (ps : List PropertySchema)
      → All
          (λ (p : PropertySchema).
            (o : ℕ) × (p.offset ≡ some o) × (o + get_static_size p.data_type ≤ next))
          ps
      → q.offset ≡ some o
      → next ≤ o
      → All (λ (p : PropertySchema). EndsBefore p q) ps
  stored_before next o q [] ends e b = tt
  stored_before next o q (p ∷ ps) ((o', e', b'), ends) e b =
      ((o', o, e', e, omega (arith, b, b')), stored_before next o q ps ends e b)

  All-before :
      (next : ℕ) (ps : List PropertySchema)
      → find_next_offset existing ≡ ok next
      → NewFrom next ps
      → All
          (λ (q : PropertySchema).
            stored existing q ≡ none → All (λ (p : PropertySchema). EndsBefore p q) existing)
          ps
  All-before next [] h k = tt
  All-before next (q ∷ ps) h (here, rest) = (
    (λ new.
        let (o, e, b) = here new in
        stored_before next o q existing (find_next_offset-ends next existing h) e b),
    All-before next ps h rest,
  )

  -- When the properties of a schema take their offsets from the stored schema of the collection, those that are
  -- stored keep their offset, and each new one begins behind the end of every stored property, of its stored
  -- type, and behind the end of the new properties before it.
  pub assign_offsets-EndsBefore :
      (next : ℕ) (ps : List PropertySchema)
      → find_next_offset existing ≡ ok next
      → All
          (λ (q : PropertySchema).
            stored existing q ≡ none → All (λ (p : PropertySchema). EndsBefore p q) existing)
          (assign_offsets existing next ps)
        × NewInOrder existing (assign_offsets existing next ps)
        × Kept (assign_offsets existing next ps)
  assign_offsets-EndsBefore next ps h =
      let (a, b, c) = assign_offsets-laid_out next ps in
      (All-before next (assign_offsets existing next ps) h a, b, c)
