-- ===== src/Query/FastWildMatch/Attempt.antt =====
-- The invariant of the rounds of `fast_wild_match`, and the rounds that keep it.
use isar_core.Prelude.{
  ℕ, suc, ◌+◌, ◌-◌, ◌*◌, ◌≤◌, ◌<◌, ◌≡◌, refl, sym, ap, ◌∙◌, ◌⊎◌, inl, inr, arith,
}
use isar_core.Prelude.{
  true, false, ◌||◌, ◌==◌, if◌then◌else◌, Option, none, some, [], ◌∷◌, ◌++◌, length, drop,
  get_elem?, All, length-append, length-drop, All-append,
}
use isar_core.Prelude.Bytes.{Bytes}
use isar_core.Query.FastWildMatch.{
  question_mark, Positions, Outcome, return, continue, seek, restart, advance, ends,
}
use isar_core.Query.FastWildMatch.Reference.{some_rest, wild_matches}
use isar_core.Query.FastWildMatch.Segment.{IsPlain, wild_matches-plain, segment_long-some_rest}
use isar_core.Query.FastWildMatch.Search.{seek_lem, ends_lem, Sought}
use mathlib.Core.List.{append_assoc}

pub times_le : (a b c : ℕ) → a ≤ b → a * c ≤ b * c
times_le a b c h =
    let split : b ≡ a + (b - a) = omega arith in omega (arith, ap (λ (t : ℕ). t * c) split)

module _ (tame wild : Bytes) where
  -- The attempt of the current round: the part of the pattern between the last asterisk and `i_wild` stands
  -- in the string between `i_last` and `i_tame`. The answer is that of the rests from there, or a later
  -- attempt.
  abbrev pub Attempt : Positions → Type 0
  Attempt s =
      (seg : Bytes) × (0 < s.i_star)
      × (drop s.i_star wild ≡ seg ++ drop s.i_wild wild)
      × All IsPlain seg
      × (0 < length seg)
      × (s.i_last + length seg ≡ s.i_tame)
      × (wild_matches wild tame ≡ (
          wild_matches (drop s.i_wild wild) (drop s.i_tame tame)
          || some_rest (wild_matches (seg ++ drop s.i_wild wild)) (drop (suc s.i_last) tame)))

  -- Before the first asterisk there is no other attempt.
  abbrev pub First : Positions → Type 0
  First s =
      (s.i_star ≡ 0)
      × (s.i_last ≡ 0)
      × (wild_matches wild tame ≡ wild_matches (drop s.i_wild wild) (drop s.i_tame tame))

  abbrev pub IsValid : Positions → Type 0
  IsValid s = (s.i_tame ≤ length tame) × (First s ⊎ Attempt s)

  -- The starts that are left, and the positions that are left of an attempt.
  abbrev pub starts : Positions → ℕ
  starts s = if s.i_star == 0 then length tame + 1 else length tame - s.i_last

  abbrev pub measure : Positions → ℕ
  measure s = starts s * (length tame + 2) + (length tame - s.i_tame)

  abbrev pub Progress : ℕ → Outcome → Type 0
  Progress m (return b) = b ≡ wild_matches wild tame
  Progress m (continue s) = IsValid s × (measure s < m)

  -- A new attempt from `i_tame` on, for a part of the pattern at `i_star`.
  pub restart-Progress :
      (i_star i_tame x m : ℕ)
      → 0 < i_star
      → get_elem? wild i_star ≡ some x
      → drop i_star wild ≡ x ∷ drop (suc i_star) wild
      → IsPlain x
      → i_tame < length tame
      → wild_matches wild tame ≡ some_rest (wild_matches (drop i_star wild)) (drop i_tame tame)
      → (length tame - i_tame) * (length tame + 2) + length tame ≤ m
      → Progress m (restart tame wild i_star i_tame i_star)
  unfolding restart
  restart-Progress i_star i_tame x m positive e e' plain inside same room =
      sought (seek (length tame) tame wild i_star i_tame) (
        seek_lem (length tame) tame wild i_star i_tame x (drop (suc i_star) wild) e plain inside
          (omega arith))
    where
      same' :
          wild_matches wild tame
          ≡ some_rest (wild_matches (x ∷ drop (suc i_star) wild)) (drop i_tame tame)
      same' = same ∙ ap (λ (l : Bytes). some_rest (wild_matches l) (drop i_tame tame)) e'

      sought :
          (answer : Option ℕ)
          → Sought x (drop (suc i_star) wild) tame i_tame answer
          → Progress m (elim answer [
            | none ↦ return false
            | some i ↦
                continue
                  (record { i_wild = suc i_star; i_tame = suc i; i_last = i; i_star = i_star })
          ])
      sought none h = sym (same' ∙ h)
      sought (some j) (low, high, h) = (
        (omega arith, inr (x ∷ [], positive, e', (plain, tt), omega arith, omega arith, same' ∙ h)),
        ground (arith, times_le (length tame - j) (length tame - i_tame) (length tame + 2)),
      )

  forward :
      (i j w t : ℕ)
      → drop i wild ≡ w ∷ drop (suc i) wild
      → drop j tame ≡ t ∷ drop (suc j) tame
      → IsPlain w
      → ((w == question_mark) || (w == t)) ≡ true
      → wild_matches (drop i wild) (drop j tame)
        ≡ wild_matches (drop (suc i) wild) (drop (suc j) tame)
  forward i j w t e g plain m =
      rw (e, g, wild_matches-plain w t (drop (suc i) wild) (drop (suc j) tame) plain, m) refl

  -- A byte of the pattern that matches the byte of the string.
  pub advance-Progress :
      (s : Positions) (w t : ℕ)
      → IsValid s
      → drop s.i_wild wild ≡ w ∷ drop (suc s.i_wild) wild
      → drop s.i_tame tame ≡ t ∷ drop (suc s.i_tame) tame
      → s.i_tame < length tame
      → IsPlain w
      → ((w == question_mark) || (w == t)) ≡ true
      → Progress (measure s) (advance s)
  advance-Progress s w t (_, inl (star, last, h)) e g inside plain m =
      ((omega arith, inl (star, last, h ∙ forward s.i_wild s.i_tame w t e g plain m)), omega arith)
  advance-Progress s w t (_, inr (seg, positive, split, plains, long, place, h)) e g inside plain
        m =
      let moved : seg ++ drop s.i_wild wild ≡ (seg ++ w ∷ []) ++ drop (suc s.i_wild) wild =
        ap (λ (l : Bytes). seg ++ l) e
        ∙ sym (append_assoc seg (w ∷ []) (drop (suc s.i_wild) wild)) in
      let size = length-append {0} seg (w ∷ []) in
      (
        (
          omega arith,
          inr (
            seg ++ w ∷ [],
            positive,
            split ∙ moved,
            All-append IsPlain seg (w ∷ []) plains (plain, tt),
            omega (arith, size),
            omega (arith, size),
            h ∙ (λ i.
                forward s.i_wild s.i_tame w t e g plain m i
                || some_rest (wild_matches (moved i)) (drop (suc s.i_last) tame)),
          ),
        ),
        omega arith,
      )

  -- The string has ended: only asterisks may be left of the pattern.
  pub ends-IsValid :
      (s : Positions)
      → IsValid s
      → drop s.i_tame tame ≡ []
      → length tame ≤ s.i_tame
      → wild_matches wild tame ≡ ends (length wild) wild s.i_wild
  ends-IsValid s (_, inl (star, last, h)) g past =
      h
      ∙ ap (wild_matches (drop s.i_wild wild)) g
      ∙ sym (ends_lem (length wild) wild s.i_wild (omega arith))
  ends-IsValid s (_, inr (seg, positive, split, plains, long, place, h)) g past =
      let late : some_rest (wild_matches (seg ++ drop s.i_wild wild)) (drop (suc s.i_last) tame)
          ≡ false =
        segment_long-some_rest seg (drop s.i_wild wild) (drop (suc s.i_last) tame) plains
          (omega (arith, length-drop (suc s.i_last) tame)) in
      ground (
        arith,
        h,
        late,
        ap (wild_matches (drop s.i_wild wild)) g,
        ends_lem (length wild) wild s.i_wild (omega arith),
      )
