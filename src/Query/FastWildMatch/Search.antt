-- ===== src/Query/FastWildMatch/Search.antt =====
-- What the inner loops find, in terms of the rests of the pattern and of the string at two positions.
use isar_core.Prelude.{ℕ, zero, suc, ◌+◌, ◌≤◌, ◌<◌, ◌≡◌, refl, sym, ap, ◌∙◌, ◌⊎◌, inl, inr, arith}
use isar_core.Prelude.{
  true, false, ◌||◌, ◌==◌, if◌then◌else◌, Option, none, some, [], ◌∷◌, length, drop, get_elem?,
  Bool-cases, ==_iff,
}
use isar_core.Prelude.Bytes.{Bytes}
use isar_core.Query.FastWildMatch.{
  asterisk, question_mark, is_byte, is_some, skip_asterisks, seek, ends,
}
use isar_core.Query.FastWildMatch.Reference.{some_rest, wild_matches}
use isar_core.Query.FastWildMatch.Segment.{
  IsPlain, wild_matches-asterisk, wild_matches-plain_nil, wild_matches-plain, some_rest-some_rest,
}

-- A position is at the end, or at a byte.
pub look :
    (xs : Bytes) (i : ℕ)
    → ((get_elem? xs i ≡ none) × (drop i xs ≡ []) × (length xs ≤ i))
      ⊎ ((x : ℕ) × (get_elem? xs i ≡ some x) × (drop i xs ≡ x ∷ drop (suc i) xs) × (i < length xs))
look [] zero = inl (refl, refl, omega arith)
look [] (suc i) = inl (refl, refl, omega arith)
look (x ∷ xs) zero = inr (x, refl, refl, omega arith)
look (x ∷ xs) (suc i) = elim (look xs i) [
  | inl h ↦ (let (e, e', l) = h in inl (e, e', omega arith))
  | inr h ↦ (let (y, e, e', l) = h in inr (y, e, e', omega arith))
]

-- Asterisks in a row are one.
asterisk_same :
    (x : ℕ) (ws ts : Bytes)
    → (asterisk == x) ≡ true
    → some_rest (wild_matches (x ∷ ws)) ts ≡ some_rest (wild_matches ws) ts
asterisk_same x ws ts h =
    ap (λ (x : ℕ). some_rest (wild_matches (x ∷ ws)) ts) (sym ((==_iff asterisk x).0 h))
    ∙ (λ i. some_rest (λ rest. wild_matches-asterisk ws rest i) ts)
    ∙ some_rest-some_rest (wild_matches ws) ts

pub skip_asterisks_lem :
    (fuel : ℕ) (wild : Bytes) (i : ℕ)
    → length wild ≤ fuel + i
    → (is_byte asterisk (get_elem? wild (skip_asterisks fuel wild i)) ≡ false)
      × (0 < skip_asterisks fuel wild i)
      × ((ts : Bytes)
          → some_rest (wild_matches (drop (suc i) wild)) ts
            ≡ some_rest (wild_matches (drop (skip_asterisks fuel wild i) wild)) ts)
unfolding skip_asterisks
skip_asterisks_lem zero wild i h = elim (look wild (suc i)) [
  | inl k ↦ (let (e, _, _) = k in (rw e refl, omega arith, λ ts. refl))
  | inr k ↦ (let (_, _, _, l) = k in absurd (omega arith))
]
skip_asterisks_lem (suc fuel) wild i h = elim (look wild (suc i)) [
  | inl k ↦ (let (e, _, _) = k in rw e (rw e refl, omega arith, λ ts. refl))
  | inr k ↦
      (let (x, e, e', l) = k in
        elim (Bool-cases (asterisk == x)) [
          | inl b ↦
              (let (plain, positive, same) = skip_asterisks_lem fuel wild (suc i) (omega arith) in
                rw (e, b)
                  (
                    plain,
                    positive,
                    λ ts.
                        ap (λ (l : Bytes). some_rest (wild_matches l) ts) e'
                        ∙ asterisk_same x (drop (suc (suc i)) wild) ts b
                        ∙ same ts,
                  ))
          | inr b ↦ rw (e, b) (rw (e, b) refl, omega arith, λ ts. refl)
        ])
]

pub ends_lem :
    (fuel : ℕ) (wild : Bytes) (i : ℕ)
    → length wild ≤ fuel + i
    → ends fuel wild i ≡ wild_matches (drop i wild) []
unfolding ends wild_matches some_rest
ends_lem zero wild i h = elim (look wild i) [
  | inl k ↦ (let (e, e', _) = k in rw (e, e') refl)
  | inr k ↦ (let (_, _, _, l) = k in absurd (omega arith))
]
ends_lem (suc fuel) wild i h = elim (look wild i) [
  | inl k ↦ (let (e, e', _) = k in rw (e, e') refl)
  | inr k ↦ (let (x, e, e', l) = k in rw (e, e') (ground (arith, ends_lem fuel wild (suc i))))
]

-- A byte of the string that the first byte of the pattern matches, or does not.
some_rest-here :
    (x t : ℕ) (ws ts : Bytes)
    → IsPlain x
    → ((t == x) || (question_mark == x)) ≡ true
    → some_rest (wild_matches (x ∷ ws)) (t ∷ ts)
      ≡ (wild_matches ws ts || some_rest (wild_matches (x ∷ ws)) ts)
unfolding some_rest
some_rest-here x t ws ts plain h = ground (arith, h, wild_matches-plain x t ws ts plain)

some_rest-later :
    (x t : ℕ) (ws ts : Bytes)
    → IsPlain x
    → ((t == x) || (question_mark == x)) ≡ false
    → some_rest (wild_matches (x ∷ ws)) (t ∷ ts) ≡ some_rest (wild_matches (x ∷ ws)) ts
unfolding some_rest
some_rest-later x t ws ts plain h = ground (arith, h, wild_matches-plain x t ws ts plain)

some_rest-end : (x : ℕ) (ws : Bytes) → IsPlain x → some_rest (wild_matches (x ∷ ws)) [] ≡ false
unfolding some_rest
some_rest-end x ws plain = wild_matches-plain_nil x ws plain

-- One step of `seek`.
seek-here :
    (fuel : ℕ) (tame wild : Bytes) (i_wild i_tame x t : ℕ)
    → get_elem? wild i_wild ≡ some x
    → get_elem? tame i_tame ≡ some t
    → ((t == x) || (question_mark == x)) ≡ true
    → seek (suc fuel) tame wild i_wild i_tame ≡ some i_tame
unfolding seek
seek-here fuel tame wild i_wild i_tame x t e g h = rw (e, g) (ground (arith, h))

seek-later :
    (fuel : ℕ) (tame wild : Bytes) (i_wild i_tame x t : ℕ)
    → get_elem? wild i_wild ≡ some x
    → get_elem? tame i_tame ≡ some t
    → ((t == x) || (question_mark == x)) ≡ false
    → seek (suc fuel) tame wild i_wild i_tame ≡ (
        if is_some (get_elem? tame (suc i_tame))
        then seek fuel tame wild i_wild (suc i_tame)
        else none)
unfolding seek
seek-later fuel tame wild i_wild i_tame x t e g h = rw (e, g) (ground (arith, h))

-- What `seek` answers from a position on: the rest of the pattern matches at no place, or it matches at
-- the place found, if not further on.
abbrev pub Sought : ℕ → Bytes → Bytes → ℕ → Option ℕ → Type 0
Sought x ws tame i_tame none = some_rest (wild_matches (x ∷ ws)) (drop i_tame tame) ≡ false
Sought x ws tame i_tame (some j) =
    (i_tame ≤ j)
    × (j < length tame)
    × (some_rest (wild_matches (x ∷ ws)) (drop i_tame tame) ≡ (
        wild_matches (ws) (drop (suc j) tame)
        || some_rest (wild_matches (x ∷ ws)) (drop (suc j) tame)))

pub seek_lem :
    (fuel : ℕ) (tame wild : Bytes) (i_wild i_tame x : ℕ) (ws : Bytes)
    → get_elem? wild i_wild ≡ some x
    → IsPlain x
    → i_tame < length tame
    → length tame ≤ fuel + i_tame
    → Sought x ws tame i_tame (seek fuel tame wild i_wild i_tame)
seek_lem zero tame wild i_wild i_tame x ws e plain inside enough = absurd (omega arith)
seek_lem (suc fuel) tame wild i_wild i_tame x ws e plain inside enough = elim (look tame i_tame) [
  | inl k ↦ (let (_, _, l) = k in absurd (omega arith))
  | inr k ↦
      (let (t, g, g', _) = k in
        elim (Bool-cases ((t == x) || (question_mark == x))) [
          | inl found ↦ rw (seek-here fuel tame wild i_wild i_tame x t e g found) (
            omega arith,
            inside,
            ap (some_rest (wild_matches (x ∷ ws))) g'
                ∙ some_rest-here x t ws (drop (suc i_tame) tame) plain found,
          )
          | inr miss ↦
              let later =
                ap (some_rest (wild_matches (x ∷ ws))) g'
                ∙ some_rest-later x t ws (drop (suc i_tame) tame) plain miss in
              elim (look tame (suc i_tame)) [
                | inl n ↦
                    (let (o, o', _) = n in
                      rw (seek-later fuel tame wild i_wild i_tame x t e g miss, o)
                        (later
                          ∙ ap (some_rest (wild_matches (x ∷ ws))) o'
                          ∙ some_rest-end x ws plain))
                | inr n ↦
                    (let (t', o, o', inside') = n in
                      rw (seek-later fuel tame wild i_wild i_tame x t e g miss, o)
                        (sought_later (seek fuel tame wild i_wild (suc i_tame)) later (
                          seek_lem fuel tame wild i_wild (suc i_tame) x ws e plain inside'
                            (omega arith))))
              ]
        ])
]
  where
    sought_later :
        (answer : Option ℕ)
        → some_rest (wild_matches (x ∷ ws)) (drop i_tame tame)
          ≡ some_rest (wild_matches (x ∷ ws)) (drop (suc i_tame) tame)
        → Sought x ws tame (suc i_tame) answer
        → Sought x ws tame i_tame answer
    sought_later none same h = same ∙ h
    sought_later (some j) same (low, high, h) = (omega arith, high, same ∙ h)
