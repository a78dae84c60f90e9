-- ===== src/Query/IndexWhereClause/Range.antt =====
-- Which keys stand in the range of a clause, before and after `try_exclude`.
use isar_core.Prelude.{
  ℕ, zero, suc, ◌+◌, ◌<◌, ◌≡◌, refl, ap, ◌∙◌, ◌⊎◌, ◌↔◌, inl, inr, arith, Ordering,
}
use isar_core.Prelude.{
  Bool, true, false, Option, some, List, [], ◌∷◌, ◌++◌, length, length-append, any, Bool-cases,
  Option-cases,
}
use isar_core.Prelude.Bytes.{Bytes, compare_bytes, compare_bytes-append_same}
use isar_core.Lmdb.ByteKey.Order.{cmp_bytes-compare_bytes, compare_bytes-reverse}
use isar_core.Error.{Result, ok, ◌>>=◌}
use isar_core.Index.Hashing.{Hashing, Unicode}
use isar_core.Object.IsarObject.{IsarObject}
use isar_core.Index.CreateKeys.{create_keys}
use isar_core.Query.IndexWhereClause.{
  object_matches, IndexWhereClause, checked_add, checked_sub, change_last, change_key, in_range,
  match_keys, try_exclude, try_exclude_upper,
}
use isar_core.Query.IndexWhereClause.Exclude.{
  Below, AtMost, Below-AtMost, AtMost-Below, increased_key, decreased_key, change_last-last,
  next_least, previous_greatest,
}

-- A key is in range when it stands between the bounds.
pub in_range_iff :
    (wc : IndexWhereClause) (key : Bytes)
    → (in_range wc key ≡ true) ↔ (AtMost wc.lower_key key × AtMost key wc.upper_key)
unfolding in_range
in_range_iff wc key =
    rw
      (
        cmp_bytes-compare_bytes key wc.lower_key,
        cmp_bytes-compare_bytes key wc.upper_key,
        compare_bytes-reverse key wc.lower_key,
      )
      (ground arith)

-- The bound that a flag asks for: the key itself is in range, or it is not.
abbrev pub AboveBound : Bool → Bytes → Bytes → Type 0
AboveBound true lower key = AtMost lower key
AboveBound false lower key = Below lower key

abbrev pub BelowBound : Bool → Bytes → Bytes → Type 0
BelowBound true upper key = AtMost key upper
BelowBound false upper key = Below key upper

pub try_exclude_upper-BelowBound :
    (iu : Bool) (wc : IndexWhereClause) (key : Bytes)
    → (try_exclude_upper iu wc).1 ≡ true
    → AtMost key ((try_exclude_upper iu wc).0.upper_key)
    → BelowBound iu wc.upper_key key
unfolding try_exclude_upper
try_exclude_upper-BelowBound true wc key h k = k
try_exclude_upper-BelowBound false wc key h k =
    elim (Option-cases (change_key checked_sub wc.upper_key)) [
      | inl e ↦ absurd (ground (arith, h, e))
      | inr (upper_key, e) ↦
          AtMost-Below key upper_key wc.upper_key (ground (arith, k, e))
            (decreased_key wc.upper_key upper_key e)
    ]

try_exclude_upper-lower_key :
    (iu : Bool) (wc : IndexWhereClause) → (try_exclude_upper iu wc).0.lower_key ≡ wc.lower_key
unfolding try_exclude_upper
try_exclude_upper-lower_key true wc = refl
try_exclude_upper-lower_key false wc = elim (Option-cases (change_key checked_sub wc.upper_key)) [
  | inl e ↦ ground (arith, e)
  | inr (upper_key, e) ↦ ground (arith, e)
]

-- When `try_exclude` succeeds, each key in the range that it leaves was in the range before, and is not a
-- bound that is to be excluded.
pub try_exclude-narrows :
    (il iu : Bool) (wc : IndexWhereClause) (key : Bytes)
    → (try_exclude il iu wc).1 ≡ true
    → in_range (try_exclude il iu wc).0 key ≡ true
    → AboveBound il wc.lower_key key × BelowBound iu wc.upper_key key
unfolding try_exclude
try_exclude-narrows true iu wc key h k =
    let (lower, upper) = (in_range_iff (try_exclude_upper iu wc).0 key).0 k in
    (
      ground (arith, lower, try_exclude_upper-lower_key iu wc),
      try_exclude_upper-BelowBound iu wc key h upper,
    )
try_exclude-narrows false iu wc key h k =
    elim (Option-cases (change_key checked_add wc.lower_key)) [
      | inl e ↦ absurd (ground (arith, h, e))
      | inr (lower_key, e) ↦
          let wc' : IndexWhereClause = record wc { lower_key = lower_key } in
          let h' : (try_exclude_upper iu wc').1 ≡ true = ground (arith, h, e) in
          let k' : in_range (try_exclude_upper iu wc').0 key ≡ true = ground (arith, k, e) in
          let (lower, upper) = (in_range_iff (try_exclude_upper iu wc').0 key).0 k' in
          (
            Below-AtMost wc.lower_key lower_key key (increased_key wc.lower_key lower_key e)
                (ground (arith, lower, try_exclude_upper-lower_key iu wc')),
            try_exclude_upper-BelowBound iu wc' key h' upper,
          )
    ]

change_key-last :
    (step : ℕ → Option ℕ) (p q : ℕ) (pre : Bytes) (b c : ℕ)
    → step b ≡ some c
    → change_key step (p ∷ q ∷ pre ++ b ∷ []) ≡ some (p ∷ q ∷ pre ++ c ∷ [])
unfolding change_key
change_key-last step p q pre b c h = rw (change_last-last step pre b c h) refl

-- The bounds that are left hold all keys of their length that the flags ask for.
lower_left :
    (p q : ℕ) (pre : Bytes) (b : ℕ) (lower key : Bytes)
    → lower ≡ p ∷ q ∷ pre ++ b ∷ []
    → b < 255
    → length key ≡ length lower
    → (left : Bytes) × (change_key checked_add lower ≡ some left)
      × (Below lower key → AtMost left key)
lower_left p q pre b lower key e h same = rw e (
  p ∷ q ∷ pre ++ (b + 1) ∷ [],
  change_key-last checked_add p q pre b (b + 1) (ground arith),
  next_least (p ∷ q ∷ pre) key b
      (omega (arith, same, ap length e, length-append (p ∷ q ∷ pre) (b ∷ []))),
)

upper_left :
    (p q : ℕ) (pre : Bytes) (b : ℕ) (upper key : Bytes)
    → upper ≡ p ∷ q ∷ pre ++ b ∷ []
    → 0 < b
    → length key ≡ length upper
    → (left : Bytes) × (change_key checked_sub upper ≡ some left)
      × (Below key upper → AtMost key left)
upper_left p q pre zero upper key e h same = absurd (omega arith)
upper_left p q pre (suc b) upper key e h same = rw e (
  p ∷ q ∷ pre ++ b ∷ [],
  change_key-last checked_sub p q pre (suc b) b refl,
  previous_greatest (p ∷ q ∷ pre) key b
      (omega (arith, same, ap length e, length-append (p ∷ q ∷ pre) (suc b ∷ []))),
)

upper_exact :
    (iu : Bool) (wc : IndexWhereClause) (p q b : ℕ) (pre key : Bytes)
    → wc.upper_key ≡ p ∷ q ∷ pre ++ b ∷ []
    → (iu ≡ true) ⊎ (0 < b)
    → length key ≡ length wc.upper_key
    → (left : Bytes) × (try_exclude_upper iu wc ≡ (record wc { upper_key = left }, true))
      × (BelowBound iu wc.upper_key key → AtMost key left)
unfolding try_exclude_upper
upper_exact true wc p q b pre key e h same = (wc.upper_key, refl, λ k. k)
upper_exact false wc p q b pre key e (inl h) same = absurd (ground (arith, h))
upper_exact false wc p q b pre key e (inr h) same =
    let (left, c, k) = upper_left p q pre b wc.upper_key key e h same in (left, rw c refl, k)

exact_from_upper :
    (iu : Bool) (wc : IndexWhereClause) (p q b : ℕ) (pre key : Bytes)
    → wc.upper_key ≡ p ∷ q ∷ pre ++ b ∷ []
    → (iu ≡ true) ⊎ (0 < b)
    → length key ≡ length wc.upper_key
    → ((try_exclude_upper iu wc).1 ≡ true)
      × (AtMost wc.lower_key key
          → BelowBound iu wc.upper_key key
          → in_range (try_exclude_upper iu wc).0 key ≡ true)
exact_from_upper iu wc p q b pre key e h same =
    let (left, c, k) = upper_exact iu wc p q b pre key e h same in
    (
      rw c refl,
      λ lower upper. rw c ((in_range_iff (record wc { upper_key = left }) key).1 (lower, k upper)),
    )

exact_from_both :
    (il iu : Bool) (wc : IndexWhereClause) (p q b p' q' b' : ℕ) (pre pre' key : Bytes)
    → wc.lower_key ≡ p ∷ q ∷ pre ++ b ∷ []
    → wc.upper_key ≡ p' ∷ q' ∷ pre' ++ b' ∷ []
    → (il ≡ true) ⊎ (b < 255)
    → (iu ≡ true) ⊎ (0 < b')
    → length key ≡ length wc.lower_key
    → length key ≡ length wc.upper_key
    → ((try_exclude il iu wc).1 ≡ true)
      × (AboveBound il wc.lower_key key
          → BelowBound iu wc.upper_key key
          → in_range (try_exclude il iu wc).0 key ≡ true)
unfolding try_exclude
exact_from_both true iu wc p q b p' q' b' pre pre' key el eu hl hu sl su =
    exact_from_upper iu wc p' q' b' pre' key eu hu su
exact_from_both false iu wc p q b p' q' b' pre pre' key el eu (inl hl) hu sl su =
    absurd (ground (arith, hl))
exact_from_both false iu wc p q b p' q' b' pre pre' key el eu (inr hl) hu sl su =
    let (left, c, k) = lower_left p q pre b wc.lower_key key el hl sl in
    let (succeeds, within) =
      exact_from_upper iu (record wc { lower_key = left }) p' q' b' pre' key eu hu su in
    rw c (succeeds, λ lower upper. within (k lower) upper)

-- Where the bounds have a prefix and a last byte that `try_exclude` can change (not 255 in a lower bound
-- that is to be excluded, not 0 in such an upper bound), it succeeds, and the range it leaves holds
-- exactly the keys of the bounds' length that the bounds and the flags ask for.
pub try_exclude-exact :
    (il iu : Bool) (wc : IndexWhereClause) (p q b p' q' b' : ℕ) (pre pre' key : Bytes)
    → wc.lower_key ≡ p ∷ q ∷ pre ++ b ∷ []
    → wc.upper_key ≡ p' ∷ q' ∷ pre' ++ b' ∷ []
    → (il ≡ true) ⊎ (b < 255)
    → (iu ≡ true) ⊎ (0 < b')
    → length key ≡ length wc.lower_key
    → length key ≡ length wc.upper_key
    → ((try_exclude il iu wc).1 ≡ true)
      × ((in_range (try_exclude il iu wc).0 key ≡ true)
          ↔ (AboveBound il wc.lower_key key × BelowBound iu wc.upper_key key))
try_exclude-exact il iu wc p q b p' q' b' pre pre' key el eu hl hu sl su =
    let (succeeds, within) =
      exact_from_both il iu wc p q b p' q' b' pre pre' key el eu hl hu sl su in
    (succeeds, (try_exclude-narrows il iu wc key succeeds, λ h. within (h.0) (h.1)))

change_last-full :
    (pre : Bytes) (b : ℕ)
    → b < 255
    → change_last checked_add (pre ++ b ∷ 255 ∷ []) ≡ some (pre ++ (b + 1) ∷ 255 ∷ [])
unfolding change_last
change_last-full [] b h = ground arith
change_last-full (x ∷ pre) b h = ground (arith, change_last-full pre b h)

change_key-full :
    (p q : ℕ) (pre : Bytes) (b : ℕ)
    → b < 255
    → change_key checked_add (p ∷ q ∷ pre ++ b ∷ 255 ∷ [])
      ≡ some (p ∷ q ∷ pre ++ (b + 1) ∷ 255 ∷ [])
unfolding change_key
change_key-full p q pre b h = rw (change_last-full pre b h) refl

compare_next : (b : ℕ) → compare_bytes (b ∷ 255 ∷ []) ((b + 1) ∷ 0 ∷ []) ≡ Ordering.lt
unfolding compare_bytes
compare_next b = ground arith

compare_past : (b : ℕ) → compare_bytes (b ∷ 255 ∷ []) (b ∷ 0 ∷ []) ≡ Ordering.gt
unfolding compare_bytes
compare_past b = ground arith

-- Where the last byte of a lower bound that is to be excluded is 255, keys above the bound are lost: the
-- byte before it is increased, and 255 is left behind it.
pub try_exclude-skips :
    (wc : IndexWhereClause) (p q b : ℕ) (pre : Bytes)
    → wc.lower_key ≡ p ∷ q ∷ pre ++ b ∷ 255 ∷ []
    → b < 255
    → Below wc.lower_key (p ∷ q ∷ pre ++ (b + 1) ∷ 0 ∷ [])
      × (in_range (try_exclude false true wc).0 (p ∷ q ∷ pre ++ (b + 1) ∷ 0 ∷ []) ≡ false)
unfolding try_exclude try_exclude_upper
try_exclude-skips wc p q b pre e h =
    let front : Bytes = p ∷ q ∷ pre in
    let c : change_key checked_add wc.lower_key ≡ some (front ++ (b + 1) ∷ 255 ∷ []) =
      ap (change_key checked_add) e ∙ change_key-full p q pre b h in
    (
      rw (e, compare_bytes-append_same front (b ∷ 255 ∷ []) ((b + 1) ∷ 0 ∷ [])) (compare_next b),
      rw c (
          out_of_range (record wc { lower_key = front ++ (b + 1) ∷ 255 ∷ [] })
            (front ++ (b + 1) ∷ 0 ∷ [])
            (compare_bytes-append_same front ((b + 1) ∷ 255 ∷ []) ((b + 1) ∷ 0 ∷ [])
              ∙ compare_past (b + 1))),
    )
  where
    out_of_range :
        (wc : IndexWhereClause) (key : Bytes)
        → compare_bytes wc.lower_key key ≡ Ordering.gt
        → in_range wc key ≡ false
    out_of_range wc key above = elim (Bool-cases (in_range wc key)) [
      | inl k ↦
          (let (lower, upper) = (in_range_iff wc key).0 k in absurd (ground (arith, above, lower)))
      | inr k ↦ k
    ]

match_keys-any :
    (wc : IndexWhereClause) (found : Bool) (keys : List Bytes)
    → found ≡ false
    → match_keys wc found keys ≡ any (in_range wc) keys
unfolding match_keys
match_keys-any wc found [] h = h
match_keys-any wc found (key ∷ keys) h = elim (Bool-cases (in_range wc key)) [
  | inl e ↦ rw e refl
  | inr e ↦ ground (arith, e, match_keys-any wc false keys refl)
]

-- An object matches a clause exactly when one of its keys in the index is in range.
pub object_matches-any :
    (u : Unicode) (h : Hashing) (wc : IndexWhereClause) (object : IsarObject)
    → object_matches u h wc object
      ≡ (create_keys u h wc.index object >>= λ keys. ok (any (in_range wc) keys))
unfolding object_matches
object_matches-any u h wc object =
    ap (λ (f : List Bytes → Result Bool). create_keys u h wc.index object >>= f)
      (λ i keys. ok (match_keys-any wc false keys refl i))
