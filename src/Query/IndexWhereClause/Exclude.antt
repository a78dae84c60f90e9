-- ===== src/Query/IndexWhereClause/Exclude.antt =====
-- What the bounds of a range are after `try_exclude`, among the keys of one length, as those of an index
-- over numbers are.
use isar_core.Prelude.{ℕ, zero, suc, ◌+◌, ◌≡◌, refl, inl, inr, arith, Ordering, is_le}
use isar_core.Prelude.{true, Option, some, [], ◌∷◌, ◌++◌, length, Option-cases}
use isar_core.Prelude.Bytes.{Bytes, compare_bytes}
use isar_core.Query.IndexWhereClause.{checked_add, checked_sub, change_last, change_key}

-- The two orders of keys as propositions.
abbrev pub Below : Bytes → Bytes → Type 0
Below a b = compare_bytes a b ≡ Ordering.lt

abbrev pub AtMost : Bytes → Bytes → Type 0
AtMost a b = is_le (compare_bytes a b) ≡ true

pub Below-AtMost : (a b c : Bytes) → Below a b → AtMost b c → Below a c
unfolding compare_bytes
Below-AtMost [] [] c h k = absurd (ground (arith, h))
Below-AtMost [] (y ∷ b) [] h k = absurd (ground (arith, k))
Below-AtMost [] (y ∷ b) (z ∷ c) h k = refl
Below-AtMost (x ∷ a) [] c h k = absurd (ground (arith, h))
Below-AtMost (x ∷ a) (y ∷ b) [] h k = absurd (ground (arith, k))
Below-AtMost (x ∷ a) (y ∷ b) (z ∷ c) h k = ground (arith, Below-AtMost a b c)

pub AtMost-Below : (a b c : Bytes) → AtMost a b → Below b c → Below a c
unfolding compare_bytes
AtMost-Below [] [] c h k = k
AtMost-Below [] (y ∷ b) [] h k = absurd (ground (arith, k))
AtMost-Below [] (y ∷ b) (z ∷ c) h k = refl
AtMost-Below (x ∷ a) [] c h k = absurd (ground (arith, h))
AtMost-Below (x ∷ a) (y ∷ b) [] h k = absurd (ground (arith, k))
AtMost-Below (x ∷ a) (y ∷ b) (z ∷ c) h k = ground (arith, AtMost-Below a b c)

pub Below-irreflexive : (a : Bytes) → compare_bytes a a ≡ Ordering.eq
unfolding compare_bytes
Below-irreflexive [] = refl
Below-irreflexive (x ∷ a) = ground (arith, Below-irreflexive a)

-- The increased key is above the key, and the decreased key is below it.
increased : (bs more : Bytes) → change_last checked_add bs ≡ some more → Below bs more
unfolding change_last compare_bytes
increased [] more h = absurd (ground (arith, h))
increased (b ∷ bs) more h = elim (Option-cases (change_last checked_add bs)) [
  | inl e ↦ ground (arith, h, e, Below-irreflexive bs)
  | inr (more', e) ↦ ground (arith, h, e, increased bs more' e)
]

decreased : (bs more : Bytes) → change_last checked_sub bs ≡ some more → Below more bs
unfolding change_last compare_bytes
decreased [] more h = absurd (ground (arith, h))
decreased (zero ∷ bs) more h = elim (Option-cases (change_last checked_sub bs)) [
  | inl e ↦ absurd (ground (arith, h, e))
  | inr (more', e) ↦ ground (arith, h, e, decreased bs more' e)
]
decreased (suc b ∷ bs) more h = elim (Option-cases (change_last checked_sub bs)) [
  | inl e ↦ ground (arith, h, e, Below-irreflexive bs)
  | inr (more', e) ↦ ground (arith, h, e, decreased bs more' e)
]

-- Only what follows the prefix is changed.
change_key_shape :
    (step : ℕ → Option ℕ) (key more : Bytes)
    → change_key step key ≡ some more
    → (p q : ℕ) × (rest : Bytes) × (changed : Bytes) × (key ≡ p ∷ q ∷ rest)
      × (more ≡ p ∷ q ∷ changed)
      × (change_last step rest ≡ some changed)
unfolding change_key change_last
change_key_shape step [] more h = absurd (ground (arith, h))
change_key_shape step (p ∷ []) more h = absurd (ground (arith, h))
change_key_shape step (p ∷ q ∷ rest) more h = elim (Option-cases (change_last step rest)) [
  | inl e ↦ absurd (ground (arith, h, e))
  | inr (changed, e) ↦ (p, q, rest, changed, refl, ground (arith, h, e), e)
]

-- A comparison after the prefix is that of the keys.
pub prefixed : (p q : ℕ) (a b : Bytes) → compare_bytes (p ∷ q ∷ a) (p ∷ q ∷ b) ≡ compare_bytes a b
unfolding compare_bytes
prefixed p q a b = ground arith

pub increased_key : (key more : Bytes) → change_key checked_add key ≡ some more → Below key more
increased_key key more h =
    let (p, q, rest, changed, e, e', c) = change_key_shape checked_add key more h in
    rw (e, e', prefixed p q rest changed) (increased rest changed c)

pub decreased_key : (key more : Bytes) → change_key checked_sub key ≡ some more → Below more key
decreased_key key more h =
    let (p, q, rest, changed, e, e', c) = change_key_shape checked_sub key more h in
    rw (e, e', prefixed p q changed rest) (decreased rest changed c)

-- Where the last byte can be changed, it is the only one that is.
pub change_last-last :
    (step : ℕ → Option ℕ) (pre : Bytes) (b c : ℕ)
    → step b ≡ some c
    → change_last step (pre ++ b ∷ []) ≡ some (pre ++ c ∷ [])
unfolding change_last
change_last-last step [] b c h = ground (arith, h)
change_last-last step (x ∷ pre) b c h = ground (arith, change_last-last step pre b c h)

-- Nothing of the same length stands between the key and the changed one.
pub next_least :
    (pre k : Bytes) (b : ℕ)
    → length k ≡ suc (length pre)
    → Below (pre ++ b ∷ []) k
    → AtMost (pre ++ (b + 1) ∷ []) k
unfolding compare_bytes
next_least [] [] b e h = absurd (omega arith)
next_least [] (x ∷ []) b e h = ground arith
next_least [] (x ∷ y ∷ k) b e h = absurd (omega arith)
next_least (p ∷ pre) [] b e h = absurd (omega arith)
next_least (p ∷ pre) (x ∷ k) b e h = ground (arith, next_least pre k b)

pub previous_greatest :
    (pre k : Bytes) (b : ℕ)
    → length k ≡ suc (length pre)
    → Below k (pre ++ suc b ∷ [])
    → AtMost k (pre ++ b ∷ [])
unfolding compare_bytes
previous_greatest [] [] b e h = absurd (omega arith)
previous_greatest [] (x ∷ []) b e h = ground arith
previous_greatest [] (x ∷ y ∷ k) b e h = absurd (omega arith)
previous_greatest (p ∷ pre) [] b e h = absurd (omega arith)
previous_greatest (p ∷ pre) (x ∷ k) b e h = ground (arith, previous_greatest pre k b)
