-- ===== src/Lmdb/IntKey/Same.antt =====
-- Two keys have the same bytes exactly when their prefixes and their ids are equal.
use isar_core.Prelude.{ℕ, ◌^◌, ◌<◌, ◌≡◌, refl, sym, ap, ◌∙◌, inl, inr, arith}
use isar_core.Prelude.{true, ◌&&◌, ◌==◌, some, Bool-cases}
use mathlib.Core.Bool.{true≢false}
use isar_core.Prelude.{==_iff}
use isar_core.Prelude.Int.{ℤ, pos, negsuc, eqb_ℤ}
use isar_core.Prelude.Bytes.{Bytes}
use isar_core.Error.{ok}
use isar_core.Lmdb.IntKey.{IntKey, as_bytes, from_bytes, get_prefix, get_id, verify_id}
use isar_core.Lmdb.IntKey
use isar_core.Lmdb.IntKey.Fields.{new-key, new_round_trip, from_bytes-as_bytes}
use isar_core.Lmdb.Cursor.Documented.{same_bytes}
use isar_core.Lmdb.Cursor.Writes.{and_true, same_bytes_refl, same_bytes-eq}

abbrev pub IsId : ℤ → Type 0
IsId oid = verify_id oid ≡ ok tt

-- The bytes of two keys are equal exactly when prefix and id are.
abbrev pub key_bytes : ℕ → ℤ → Bytes
key_bytes prefix id = as_bytes (IntKey.new prefix id)

key_bound : (p : ℕ) (a : ℤ) → p < 2 ^ 16 → IsId a → (IntKey.new p a).key < 2 ^ 64
key_bound p a hp ha = omega (arith, new-key p a ha)

pub eqb_refl : (a : ℤ) → eqb_ℤ a a ≡ true
eqb_refl (pos n) = ground arith
eqb_refl (negsuc n) = ground arith

pub eqb-eq : (a b : ℤ) → eqb_ℤ a b ≡ true → a ≡ b
eqb-eq (pos m) (pos n) h = ground arith
eqb-eq (pos m) (negsuc n) h = ground arith
eqb-eq (negsuc m) (pos n) h = ground arith
eqb-eq (negsuc m) (negsuc n) h = ground arith

-- Equal bytes come from equal fields.
key_fields :
    (p q : ℕ) (a b : ℤ)
    → p < 2 ^ 16
    → q < 2 ^ 16
    → IsId a
    → IsId b
    → key_bytes p a ≡ key_bytes q b
    → (p ≡ q) × (a ≡ b)
key_fields p q a b hp hq ha hb e =
    let keys : some (IntKey.new p a) ≡ some (IntKey.new q b) =
      sym (from_bytes-as_bytes _ (key_bound p a hp ha))
      ∙ ap from_bytes e
      ∙ from_bytes-as_bytes _ (key_bound q b hq hb) in
    let (pp, aa) = new_round_trip p a hp ha in
    let (qq, bb) = new_round_trip q b hq hb in
    let same : IntKey.new p a ≡ IntKey.new q b = cc in
    (sym pp ∙ ap get_prefix same ∙ qq, sym aa ∙ ap get_id same ∙ bb)

same_fields : (p q : ℕ) (a b : ℤ) → p ≡ q → a ≡ b → ((p == q) && eqb_ℤ a b) ≡ true
same_fields p q a b e f = rw (e, f, (==_iff q q).1 refl, eqb_refl b) refl

pub same_key :
    (p q : ℕ) (a b : ℤ)
    → p < 2 ^ 16
    → q < 2 ^ 16
    → IsId a
    → IsId b
    → same_bytes (key_bytes p a) (key_bytes q b) ≡ ((p == q) && eqb_ℤ a b)
same_key p q a b hp hq ha hb = elim (Bool-cases ((p == q) && eqb_ℤ a b)) [
  | inl h ↦
      let (e, f) = and_true (p == q) (eqb_ℤ a b) h in
      rw ((==_iff p q).0 e, eqb-eq a b f) (same_bytes_refl (key_bytes q b)) ∙ sym h
  | inr h ↦ elim (Bool-cases (same_bytes (key_bytes p a) (key_bytes q b))) [
    | inl t ↦
        let (e, f) = key_fields p q a b hp hq ha hb (same_bytes-eq _ _ t) in
        absurd (true≢false (sym (same_fields p q a b e f) ∙ h))
    | inr t ↦ t ∙ sym h
  ]
]
