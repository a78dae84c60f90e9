-- ===== src/Collection/Counter.antt =====
-- The counter of ids.
use isar_core.Prelude.{ℕ, ◌+◌, ◌-◌, ◌^◌, ◌<◌, ◌≡◌, refl, sym, ap, ◌∙◌, ◌⊎◌, inl, inr, arith}
use isar_core.Prelude.{
  Bool, true, false, ◌||◌, ltb, if◌then◌else◌, List, [], ◌∷◌, any, All, Bool-cases,
}
use mathlib.Core.Path.{subst}
use isar_core.Prelude.{ltb→lt}
use isar_core.Prelude.Int.{ℤ, pos, negsuc, ◌<ℤ◌, ◌≤ℤ◌, ltb_ℤ, eqb_ℤ}
use isar_core.Error.{Result, ok, err, auto_increment_overflow, >>=-eq-ok}
use isar_core.Object.IsarObject.{IsarObject, read_long}
use isar_core.Index.Hashing.{Hashing, Unicode}
use isar_core.Lmdb.IntKey
use isar_core.Lmdb.Keys.{int_key}
use isar_core.Lmdb.Cursor.{Lmdb, put}
use isar_core.Collection.{get_oid_property}
use isar_core.Collection.Store.{
  Cursors, put_internal, verify_object, delete_internal, create_index_entries,
}
use isar_core.Lmdb.IntKey.{max_id, verify_id}
use isar_core.Lmdb.IntKey.Same.{IsId, eqb_refl}
use isar_core.Collection.{IsarCollection, update_oid_counter, auto_increment_internal}

-- The counter after it has been told of these ids.
put_ids : List ℤ → IsarCollection → IsarCollection
unfolding update_oid_counter
put_ids [] col = col
put_ids (oid ∷ oids) col = put_ids oids (update_oid_counter oid col)

-- A counter that is at least zero and at most the greatest id.
abbrev pub IsCounter : ℤ → Type 0
IsCounter c = (pos 0 ≤ℤ c) × (c ≤ℤ max_id)

update_oid_counter-IsCounter :
    (oid : ℤ) (col : IsarCollection)
    → IsId oid
    → IsCounter col.oid_counter
    → IsCounter ((update_oid_counter oid col).oid_counter)
      × (oid ≤ℤ (update_oid_counter oid col).oid_counter)
      × (col.oid_counter ≤ℤ (update_oid_counter oid col).oid_counter)
unfolding update_oid_counter verify_id
update_oid_counter-IsCounter oid col v h = ground (arith, v, h)

le_trans : (a b c : ℤ) → a ≤ℤ b → b ≤ℤ c → a ≤ℤ c
le_trans a b c h k = omega arith

put_ids-IsCounter :
    (oids : List ℤ) (col : IsarCollection)
    → All IsId oids
    → IsCounter col.oid_counter
    → IsCounter ((put_ids oids col).oid_counter)
      × All (λ (oid : ℤ). oid ≤ℤ (put_ids oids col).oid_counter) oids
      × (col.oid_counter ≤ℤ (put_ids oids col).oid_counter)
unfolding put_ids
put_ids-IsCounter [] col v h = (h, tt, omega arith)
put_ids-IsCounter (oid ∷ oids) col (v, vs) h =
    let (c, a, b) = update_oid_counter-IsCounter oid col v h in
    let (d, e, f) = put_ids-IsCounter oids (update_oid_counter oid col) vs c in
    (d, (le_trans oid _ _ a f, e), le_trans col.oid_counter _ _ b f)

or_true : (b : Bool) → (b || true) ≡ true
or_true true = refl
or_true false = refl

-- The counter is one of the ids, or what it was.
put_ids-any :
    (oids : List ℤ) (col : IsarCollection)
    → ((put_ids oids col).oid_counter ≡ col.oid_counter)
      ⊎ (any (λ oid. eqb_ℤ oid (put_ids oids col).oid_counter) oids ≡ true)
unfolding put_ids update_oid_counter
put_ids-any [] col = inl refl
put_ids-any (oid ∷ oids) col =
    by_rest (ltb_ℤ col.oid_counter oid) (put_ids-any oids (update_oid_counter oid col))
  where
    c : ℤ
    c = (put_ids oids (update_oid_counter oid col)).oid_counter

    by_rest :
        (b : Bool)
        → (c ≡ (if b then record col { oid_counter = oid } else col).oid_counter)
          ⊎ (any (λ oid. eqb_ℤ oid c) oids ≡ true)
        → (c ≡ col.oid_counter) ⊎ ((eqb_ℤ oid c || any (λ oid. eqb_ℤ oid c) oids) ≡ true)
    by_rest b (inr h) = inr (rw h (or_true (eqb_ℤ oid c)))
    by_rest true (inl h) = inr (rw (h, eqb_refl oid) refl)
    by_rest false (inl h) = inl h

lt_of_le : (a : ℤ) (n : ℕ) → a ≤ℤ pos n → a <ℤ pos (n + 1)
lt_of_le a n h = omega arith

All-lt :
    (oids : List ℤ) (n : ℕ)
    → All (λ (oid : ℤ). oid ≤ℤ pos n) oids
    → All (λ (oid : ℤ). oid <ℤ pos (n + 1)) oids
All-lt [] n h = tt
All-lt (oid ∷ oids) n (h, hs) = (lt_of_le oid n h, All-lt oids n hs)

auto_increment-next :
    (col : IsarCollection) (n : ℕ)
    → col.oid_counter ≡ pos n
    → n + 1 < 2 ^ 47
    → auto_increment_internal col ≡ ok (pos (n + 1), record col { oid_counter = pos (n + 1) })
unfolding auto_increment_internal
auto_increment-next col n e h = ground (arith, e, h)

auto_increment-last :
    (col : IsarCollection)
    → col.oid_counter ≡ max_id
    → auto_increment_internal col ≡ err auto_increment_overflow
unfolding auto_increment_internal
auto_increment-last col e = rw e refl

counter-pos : (c : ℤ) → pos 0 ≤ℤ c → (n : ℕ) × (c ≡ pos n)
counter-pos (pos n) h = (n, refl)
counter-pos (negsuc n) h = absurd (omega arith)

-- What auto increment answers after these ids.
abbrev pub Fresh : List ℤ → IsarCollection → IsarCollection → Type 0
Fresh oids col after =
    (n : ℤ) × (col' : IsarCollection) × (auto_increment_internal after ≡ ok (n, col'))
    × IsId n
    × All (λ (oid : ℤ). oid <ℤ n) oids
    × (col.oid_counter <ℤ n)
    × (col'.oid_counter ≡ n)

abbrev pub Exhausted : List ℤ → IsarCollection → IsarCollection → Type 0
Exhausted oids col after =
    (auto_increment_internal after ≡ err auto_increment_overflow)
    × ((col.oid_counter ≡ max_id) ⊎ (any (λ oid. eqb_ℤ oid max_id) oids ≡ true))

-- The outcome from the counter after the puts.
outcome :
    (oids : List ℤ) (col after : IsarCollection) (n : ℕ)
    → after.oid_counter ≡ pos n
    → IsCounter (pos n)
    → All (λ (oid : ℤ). oid ≤ℤ pos n) oids
    → col.oid_counter ≤ℤ pos n
    → (pos n ≡ col.oid_counter) ⊎ (any (λ oid. eqb_ℤ oid (pos n)) oids ≡ true)
    → Fresh oids col after ⊎ Exhausted oids col after
outcome oids col after n e c all b source = elim (Bool-cases (ltb (n + 1) (2 ^ 47))) [
  | inl h ↦ inl (
    pos (n + 1),
    record after { oid_counter = pos (n + 1) },
    auto_increment-next after n e (ltb→lt (n + 1) (2 ^ 47) h),
    next_valid n (ltb→lt (n + 1) (2 ^ 47) h),
    All-lt oids n all,
    lt_of_le col.oid_counter n b,
    refl,
  )
  | inr h ↦
      let last : n ≡ 2 ^ 47 - 1 = ground (arith, h, c) in
      inr (auto_increment-last after (e ∙ ap pos last), at_last source last)
]
  where
    next_valid : (m : ℕ) → m + 1 < 2 ^ 47 → IsId (pos (m + 1))
    next_valid m h = unfold verify_id in ground (arith, h)

    at_last :
        {m : ℕ}
        → (pos m ≡ col.oid_counter) ⊎ (any (λ oid. eqb_ℤ oid (pos m)) oids ≡ true)
        → m ≡ 2 ^ 47 - 1
        → (col.oid_counter ≡ max_id) ⊎ (any (λ oid. eqb_ℤ oid max_id) oids ≡ true)
    at_last (inl s) last = inl (sym s ∙ ap pos last)
    at_last (inr s) last = inr (subst (λ m. any (λ oid. eqb_ℤ oid (pos m)) oids ≡ true) last s)

-- Told of valid ids, the counter is past them, or at the end.
put_ids-outcome :
    (oids : List ℤ) (col : IsarCollection)
    → All IsId oids
    → IsCounter col.oid_counter
    → Fresh oids col (put_ids oids col) ⊎ Exhausted oids col (put_ids oids col)
put_ids-outcome oids col v h =
    let (c, all, b) = put_ids-IsCounter oids col v h in
    let (n, e) = counter-pos (put_ids oids col).oid_counter c.0 in
    outcome oids col (put_ids oids col) n e (subst IsCounter e c)
      (subst (λ m. All (λ (oid : ℤ). oid ≤ℤ m) oids) e all) (subst (λ m. col.oid_counter ≤ℤ m) e b)
      (subst (λ m. (m ≡ col.oid_counter) ⊎ (any (λ oid. eqb_ℤ oid m) oids ≡ true)) e
        (put_ids-any oids col))

module _ {Q : Type 0} (matches_wc_filter : Q → ℤ → IsarObject → Bool) (u : Unicode) (h : Hashing)
    (l : Lmdb) (rounds : ℕ) where
  -- A put that succeeds, on any cursors, of an object with this id.
  abbrev pub Put : ℤ → IsarCollection → IsarCollection → Type 0
  Put oid col after =
      (object : IsarObject) × (cs : Cursors Q) × (cs' : Cursors Q) × (read_long object
          (get_oid_property col)
        ≡ ok oid)
      × (put_internal matches_wc_filter u h l rounds col object cs ≡ ok (after, cs'))

  -- Puts one after another, by the ids of their objects.
  abbrev pub Puts : List ℤ → IsarCollection → IsarCollection → Type 0
  Puts [] col after = col ≡ after
  Puts (oid ∷ oids) col after = (next : IsarCollection) × Put oid col next × Puts oids next after

  Put-update :
      (oid : ℤ) (col after : IsarCollection)
      → Put oid col after
      → IsId oid × (update_oid_counter oid col ≡ after)
  unfolding put_internal verify_object
  Put-update oid col after (object, cs, cs', reads, puts) =
      let (read, e, h₁) = >>=-eq-ok (read_long object (get_oid_property col)) puts in
      let (checked, valid, h₂) = >>=-eq-ok (verify_id read) h₁ in
      let (deleted, e₂, h₃) =
        >>=-eq-ok (delete_internal matches_wc_filter u h l rounds col false read cs) h₂ in
      let (state, e₃, h₄) =
        >>=-eq-ok
          (create_index_entries matches_wc_filter u h l rounds (update_oid_counter read col)
            (update_oid_counter read col).indexes read object (deleted.1.index, deleted.1))
          h₃ in
      let (stored, e₄, h₅) =
        >>=-eq-ok (put l (IntKey.new col.id read) object.bytes state.1.data_cursor) h₄ in
      let same : read ≡ oid = ap id_of (sym e ∙ reads) in
      (
        subst IsId same valid,
        ap (λ oid. update_oid_counter oid col) (sym same) ∙ ap collection_of h₅,
      )
    where
      id_of : Result ℤ → ℤ
      id_of (ok z) = z
      id_of _ = pos 0

      collection_of : Result (IsarCollection × Cursors Q) → IsarCollection
      collection_of (ok r) = r.0
      collection_of _ = col

  Puts-put_ids :
      (oids : List ℤ) (col after : IsarCollection)
      → Puts oids col after
      → All IsId oids × (put_ids oids col ≡ after)
  unfolding put_ids
  Puts-put_ids [] col after same = (tt, same)
  Puts-put_ids (oid ∷ oids) col after (next, first, puts) =
      let (valid, updated) = Put-update oid col next first in
      let (valids, same) = Puts-put_ids oids next after puts in
      ((valid, valids), ap (put_ids oids) updated ∙ same)

  -- After any puts that succeed, auto increment returns a valid id that is greater than the id of each object
  -- that was put and than the counter before, and that is the counter from then on; it fails with an
  -- overflow only when the greatest id of all was put, or was the counter before.
  pub auto_increment-Fresh :
      (oids : List ℤ) (col after : IsarCollection)
      → Puts oids col after
      → IsCounter col.oid_counter
      → Fresh oids col after ⊎ Exhausted oids col after
  auto_increment-Fresh oids col after puts counter =
      let (valid, same) = Puts-put_ids oids col after puts in
      subst (λ after. Fresh oids col after ⊎ Exhausted oids col after) same
        (put_ids-outcome oids col valid counter)
