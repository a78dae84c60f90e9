-- ===== src/Query/FastWildMatch/Segment.antt =====
-- A part of a pattern without asterisks takes as many bytes as it has, so that an asterisk behind it may
-- be matched at the first place where that part stands.
use isar_core.Prelude.{ℕ, zero, suc, ◌<◌, ◌≡◌, refl, sym, ◌∙◌, inl, inr, arith}
use isar_core.Prelude.{
  Bool, true, false, ◌&&◌, ◌||◌, ◌==◌, [], ◌∷◌, ◌++◌, length, drop, All, Bool-cases,
}
use isar_core.Prelude.Bytes.{Bytes}
use isar_core.Query.FastWildMatch.{asterisk, question_mark}
use isar_core.Query.FastWildMatch.Reference.{some_rest, wild_matches}

abbrev pub IsPlain : ℕ → Type 0
IsPlain w = (w == asterisk) ≡ false

-- How the reference reads the first byte of a pattern.
pub wild_matches-asterisk :
    (ws ts : Bytes) → wild_matches (asterisk ∷ ws) ts ≡ some_rest (wild_matches ws) ts
unfolding wild_matches
wild_matches-asterisk ws [] = refl
wild_matches-asterisk ws (t ∷ ts) = refl

pub wild_matches-plain_nil : (w : ℕ) (ws : Bytes) → IsPlain w → wild_matches (w ∷ ws) [] ≡ false
unfolding wild_matches
wild_matches-plain_nil w ws h = rw h refl

pub wild_matches-plain :
    (w t : ℕ) (ws ts : Bytes)
    → IsPlain w
    → wild_matches (w ∷ ws) (t ∷ ts) ≡ ((w == question_mark) || (w == t)) && wild_matches ws ts
unfolding wild_matches
wild_matches-plain w t ws ts h = rw h refl

-- More to choose from.
pub some_rest-cons :
    (f : Bytes → Bool) (t : ℕ) (ts : Bytes) → some_rest f ts ≡ true → some_rest f (t ∷ ts) ≡ true
unfolding some_rest
some_rest-cons f t ts h = ground (arith, h)

pub some_rest-drop :
    (f : Bytes → Bool) (k : ℕ) (ts : Bytes)
    → some_rest f (drop (suc k) ts) ≡ true
    → some_rest f (drop k ts) ≡ true
some_rest-drop f k [] h = elim k as (λ k. some_rest f (drop k []) ≡ true) [ zero ↦ h | suc k' ↦ h ]
some_rest-drop f zero (t ∷ ts) h = some_rest-cons f t ts h
some_rest-drop f (suc k) (t ∷ ts) h = some_rest-drop f k ts h

pub some_rest-all : (ts : Bytes) → some_rest (wild_matches []) ts ≡ true
unfolding some_rest wild_matches
some_rest-all [] = refl
some_rest-all (t ∷ ts) = ground (arith, some_rest-all ts)

pub some_rest-some_rest :
    (f : Bytes → Bool) (ts : Bytes) → some_rest (some_rest f) ts ≡ some_rest f ts
unfolding some_rest
some_rest-some_rest f [] = refl
some_rest-some_rest f (t ∷ ts) = ground (arith, some_rest-some_rest f ts)

-- What is matched behind a part of the pattern.
segment_rest :
    (seg rest ts : Bytes)
    → All IsPlain seg
    → wild_matches (seg ++ rest) ts ≡ true
    → wild_matches rest (drop (length seg) ts) ≡ true
segment_rest [] rest ts h k = k
segment_rest (w ∷ seg) rest [] h k =
    absurd (ground (arith, k, wild_matches-plain_nil w (seg ++ rest) (h.0)))
segment_rest (w ∷ seg) rest (t ∷ ts) h k =
    segment_rest seg rest ts (h.1)
      (ground (arith, k, wild_matches-plain w t (seg ++ rest) ts (h.0)))

pub segment-some_rest :
    (seg ws ts : Bytes)
    → All IsPlain seg
    → some_rest (wild_matches (seg ++ asterisk ∷ ws)) ts ≡ true
    → some_rest (wild_matches ws) (drop (length seg) ts) ≡ true
unfolding some_rest
segment-some_rest seg ws [] h k = ground (
  arith,
  k,
  segment_rest seg (asterisk ∷ ws) [] h k,
  wild_matches-asterisk ws (drop (length seg) []),
)
segment-some_rest seg ws (t ∷ ts) h k =
    elim (Bool-cases (wild_matches (seg ++ asterisk ∷ ws) (t ∷ ts))) [
      | inl e ↦
          sym (wild_matches-asterisk ws (drop (length seg) (t ∷ ts)))
          ∙ segment_rest seg (asterisk ∷ ws) (t ∷ ts) h e
      | inr e ↦
          some_rest-drop (wild_matches ws) (length seg) (t ∷ ts)
            (segment-some_rest seg ws ts h (ground (arith, k, e)))
    ]

-- A part that is longer than the string does not match.
segment_long :
    (seg rest ts : Bytes)
    → All IsPlain seg
    → length ts < length seg
    → wild_matches (seg ++ rest) ts ≡ false
segment_long [] rest ts h k = absurd (omega arith)
segment_long (w ∷ seg) rest [] h k = wild_matches-plain_nil w (seg ++ rest) (h.0)
segment_long (w ∷ seg) rest (t ∷ ts) h k =
    ground (arith, wild_matches-plain w t (seg ++ rest) ts (h.0), segment_long seg rest ts (h.1))

pub segment_long-some_rest :
    (seg rest ts : Bytes)
    → All IsPlain seg
    → length ts < length seg
    → some_rest (wild_matches (seg ++ rest)) ts ≡ false
unfolding some_rest
segment_long-some_rest seg rest [] h k = segment_long seg rest [] h k
segment_long-some_rest seg rest (t ∷ ts) h k =
    ground (arith, segment_long seg rest (t ∷ ts) h k, segment_long-some_rest seg rest ts h)
