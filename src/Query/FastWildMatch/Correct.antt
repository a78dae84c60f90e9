-- ===== src/Query/FastWildMatch/Correct.antt =====
-- `fast_wild_match` answers what the reference answers, within its rounds.
use isar_core.Prelude.{
  ℕ, zero, suc, ◌+◌, ◌-◌, ◌*◌, ◌≤◌, ◌<◌, ◌≡◌, refl, sym, ap, ◌∙◌, inl, inr, arith,
}
use isar_core.Prelude.{
  Bool, true, false, ◌||◌, ◌==◌, if◌then◌else◌, some, [], ◌∷◌, ◌++◌, length, drop, get_elem?,
  Bool-cases,
}
use isar_core.Prelude.Bytes.{Bytes}
use isar_core.Query.FastWildMatch.{
  asterisk, question_mark, is_byte, eq_get, is_some, Positions, Outcome, return, continue,
  skip_asterisks, restart, other, round, matching, start, rounds, fast_wild_match,
}
use isar_core.Query.FastWildMatch.Reference.{some_rest, wild_matches}
use isar_core.Query.FastWildMatch.Segment.{
  wild_matches-asterisk, wild_matches-plain, some_rest-all, some_rest-drop, segment-some_rest,
}
use isar_core.Query.FastWildMatch.Search.{look, skip_asterisks_lem}
use isar_core.Query.FastWildMatch.Attempt.{
  times_le, IsValid, starts, measure, Progress, restart-Progress, advance-Progress, ends-IsValid,
}

drop_nil : (k : ℕ) → drop {A = ℕ} k [] ≡ []
drop_nil zero = refl
drop_nil (suc k) = refl

drop-drop : (k i n : ℕ) (xs : Bytes) → n ≡ i + k → drop k (drop i xs) ≡ drop n xs
drop-drop k zero n xs h = let same : k ≡ n = omega arith in ap (λ (m : ℕ). drop m xs) same
drop-drop k (suc i) n [] h = drop_nil k ∙ sym (drop_nil n)
drop-drop k (suc i) zero (x ∷ xs) h = absurd (omega arith)
drop-drop k (suc i) (suc n) (x ∷ xs) h = drop-drop k i n xs (omega arith)

module _ (tame wild : Bytes) where
  -- At an asterisk, what is left of the string is matched from here on, or further on.
  asterisk-IsValid :
      (s : Positions)
      → IsValid tame wild s
      → drop s.i_wild wild ≡ asterisk ∷ drop (suc s.i_wild) wild
      → wild_matches wild tame
        ≡ some_rest (wild_matches (drop (suc s.i_wild) wild)) (drop s.i_tame tame)
  asterisk-IsValid s (_, inl (star, last, h)) e =
      h
      ∙ ap (λ (l : Bytes). wild_matches l (drop s.i_tame tame)) e
      ∙ wild_matches-asterisk (drop (suc s.i_wild) wild) (drop s.i_tame tame)
  asterisk-IsValid s (_, inr (seg, positive, split, plains, long, place, h)) e =
      let f : Bytes → Bool = wild_matches (drop (suc s.i_wild) wild) in
      let here =
        ap (λ (l : Bytes). wild_matches l (drop s.i_tame tame)) e
        ∙ wild_matches-asterisk (drop (suc s.i_wild) wild) (drop s.i_tame tame) in
      let past : drop (length seg) (drop (suc s.i_last) tame) ≡ drop (suc s.i_tame) tame =
        drop-drop (length seg) (suc s.i_last) (suc s.i_tame) tame (omega arith) in
      h
      ∙ (λ i. here i || some_rest (wild_matches (seg ++ e i)) (drop (suc s.i_last) tame))
      ∙ absorbed (some_rest f (drop s.i_tame tame))
          (some_rest (wild_matches (seg ++ asterisk ∷ drop (suc s.i_wild) wild))
            (drop (suc s.i_last) tame))
          (λ k. some_rest-drop f s.i_tame tame (
            ap (some_rest f) (sym past)
            ∙ segment-some_rest seg (drop (suc s.i_wild) wild) (drop (suc s.i_last) tame) plains k))
    where
      absorbed : (a b : Bool) → (b ≡ true → a ≡ true) → (a || b) ≡ a
      absorbed true b h = refl
      absorbed false true h = sym (h refl)
      absorbed false false h = refl

  -- A round that leaves fewer starts tame wild makes room for an attempt at the whole string.
  room_left :
      (s : Positions) (i : ℕ)
      → suc (length tame - i) ≤ starts tame wild s
      → (length tame - i) * (length tame + 2) + length tame ≤ measure tame wild s
  room_left s i h =
      omega (arith, times_le (suc (length tame - i)) (starts tame wild s) (length tame + 2) h)

  new_star-Progress :
      (s : Positions) (i : ℕ)
      → IsValid tame wild s
      → s.i_tame < length tame
      → (is_byte asterisk (get_elem? wild i) ≡ false) × (0 < i)
      → wild_matches wild tame ≡ some_rest (wild_matches (drop i wild)) (drop s.i_tame tame)
      → Progress tame wild
          (measure tame wild s)
          (if is_some (get_elem? wild i) then restart tame wild i s.i_tame i else return true)
  new_star-Progress s i v inside (other, positive) same = elim (look wild i) [
    | inl k ↦
        (let (e, e', _) = k in
          rw e (
            sym (
              same
              ∙ ap (λ (l : Bytes). some_rest (wild_matches l) (drop s.i_tame tame)) e'
              ∙ some_rest-all (drop s.i_tame tame))))
    | inr k ↦
        (let (x, e, e', _) = k in
          rw e (
            restart-Progress tame wild i s.i_tame x (measure tame wild s) positive e e'
              (ground (arith, other, e)) inside same (room_left s s.i_tame (more_starts v))))
  ]
    where
      more_starts : IsValid tame wild s → suc (length tame - s.i_tame) ≤ starts tame wild s
      more_starts (_, inl (star, last, h)) = ground arith
      more_starts (_, inr (seg, positive, split, plains, long, place, h)) = ground arith

  nothing_here :
      (i j t : ℕ)
      → drop j tame ≡ t ∷ drop (suc j) tame
      → is_byte asterisk (get_elem? wild i) ≡ false
      → is_byte question_mark (get_elem? wild i) ≡ false
      → eq_get (some t) (get_elem? wild i) ≡ false
      → wild_matches (drop i wild) (drop j tame) ≡ false
  unfolding wild_matches
  nothing_here i j t g plain plain' differs = elim (look wild i) [
    | inl k ↦ (let (e, e', _) = k in rw (e', g) refl)
    | inr k ↦
        (let (w, e, e', _) = k in
          rw (e', g)
            (ground (
              arith,
              plain,
              plain',
              differs,
              e,
              wild_matches-plain w t (drop (suc i) wild) (drop (suc j) tame),
            )))
  ]

  -- The attempt has failed: the next one starts tame wild one byte further, where there is one.
  mismatch-Progress :
      (s : Positions) (m : ℕ)
      → IsValid tame wild s
      → measure tame wild s ≤ m
      → s.i_tame < length tame
      → wild_matches (drop s.i_wild wild) (drop s.i_tame tame) ≡ false
      → Progress tame wild m (
          if s.i_star == 0
          then return false
          else restart tame wild s.i_star (suc s.i_last) s.i_star)
  mismatch-Progress s m (_, inl (star, last, h)) room inside fails =
      let zero_star : (s.i_star == 0) ≡ true = ground arith in rw zero_star (sym (h ∙ fails))
  mismatch-Progress s m (_, inr ([], positive, split, plains, long, place, h)) room inside fails =
      absurd (omega arith)
  mismatch-Progress s m (_, inr (x ∷ seg, positive, split, plains, long, place, h)) room inside
        fails =
      let some_star : (s.i_star == 0) ≡ false = ground arith in
      elim (look wild s.i_star) [
        | inl k ↦ (let (_, e', _) = k in absurd (ground (arith, e', split)))
        | inr k ↦
            (let (w, e, e', _) = k in
              rw some_star (
                restart-Progress tame wild s.i_star (suc s.i_last) w m positive e e'
                  (ground (arith, e', split, plains.0)) (omega arith)
                  (h
                    ∙ (λ i.
                        fails i
                        || some_rest (wild_matches (x ∷ seg ++ drop s.i_wild wild))
                            (drop (suc s.i_last) tame))
                    ∙ ap (λ (l : Bytes). some_rest (wild_matches l) (drop (suc s.i_last) tame))
                        (sym split))
                  (omega (arith, room, room_left s (suc s.i_last) (ground arith)))))
      ]

  other-Progress :
      (s : Positions) (t : ℕ)
      → IsValid tame wild s
      → get_elem? tame s.i_tame ≡ some t
      → drop s.i_tame tame ≡ t ∷ drop (suc s.i_tame) tame
      → s.i_tame < length tame
      → is_byte asterisk (get_elem? wild s.i_wild) ≡ false
      → is_byte question_mark (get_elem? wild s.i_wild) ≡ false
      → Progress tame wild (measure tame wild s) (other tame wild s)
  unfolding other
  other-Progress s t v g g' inside plain plain' =
      elim (Bool-cases (eq_get (some t) (get_elem? wild s.i_wild))) [
        | inl same ↦ (elim (look wild s.i_wild) [
          | inl k ↦ (let (e, _, _) = k in absurd (ground (arith, same, e)))
          | inr k ↦
              (let (w, e, e', _) = k in
                rw (g, same)
                  (advance-Progress tame wild s w t v e' g' inside (ground (arith, plain, e))
                    (ground (arith, same, e))))
        ])
        | inr differs ↦
            rw (g, differs)
              (mismatch-Progress s (measure tame wild s) v (omega arith) inside
                (nothing_here s.i_wild s.i_tame t g' plain plain' differs))
      ]

  round-Progress :
      (s : Positions) (t : ℕ)
      → IsValid tame wild s
      → get_elem? tame s.i_tame ≡ some t
      → drop s.i_tame tame ≡ t ∷ drop (suc s.i_tame) tame
      → s.i_tame < length tame
      → Progress tame wild (measure tame wild s) (round tame wild s)
  unfolding round
  round-Progress s t v g g' inside =
      elim (Bool-cases (is_byte question_mark (get_elem? wild s.i_wild))) [
        | inl question ↦ (elim (look wild s.i_wild) [
          | inl k ↦ (let (e, _, _) = k in absurd (ground (arith, question, e)))
          | inr k ↦
              (let (w, e, e', _) = k in
                rw question (
                  advance-Progress tame wild s w t v e' g' inside (ground (arith, question, e))
                    (ground (arith, question, e))))
        ])
        | inr plain' ↦ (elim (Bool-cases (is_byte asterisk (get_elem? wild s.i_wild))) [
          | inl star ↦ (elim (look wild s.i_wild) [
            | inl k ↦ (let (e, _, _) = k in absurd (ground (arith, star, e)))
            | inr k ↦
                (let (w, e, e', _) = k in
                  let same : w ≡ asterisk = ground (arith, star, e) in
                  let (other, positive, skipped) =
                    skip_asterisks_lem (length wild) wild s.i_wild (omega arith) in
                  rw (plain', star)
                    (new_star-Progress s (skip_asterisks (length wild) wild s.i_wild) v inside
                      (other, positive)
                      (asterisk-IsValid s v (e' ∙ ap (λ (w : ℕ). w ∷ drop (suc s.i_wild) wild) same)
                        ∙ skipped (drop s.i_tame tame))))
          ])
          | inr plain ↦ rw (plain', plain) (other-Progress s t v g g' inside plain plain')
        ])
      ]

  matching_lem :
      (fuel : ℕ) (s : Positions)
      → IsValid tame wild s
      → measure tame wild s < fuel
      → matching fuel tame wild s ≡ some (wild_matches wild tame)
  unfolding matching
  matching_lem zero s v h = absurd (omega arith)
  matching_lem (suc fuel) s v h = elim (look tame s.i_tame) [
    | inl k ↦ (let (g, g', past) = k in rw g (ap some (sym (ends-IsValid tame wild s v g' past))))
    | inr k ↦
        (let (t, g, g', inside) = k in
          let present : is_some (get_elem? tame s.i_tame) ≡ true = rw g refl in
          rw present (
            finish (round tame wild s) (λ s' v' less. matching_lem fuel s' v' less)
              (round-Progress s t v g g' inside)))
  ]
    where
      finish :
          (o : Outcome)
          → ((s' : Positions)
              → IsValid tame wild s'
              → measure tame wild s' < fuel
              → matching fuel tame wild s' ≡ some (wild_matches wild tame))
          → Progress tame wild (measure tame wild s) o
          → (elim o [ return b ↦ some b | continue s' ↦ matching fuel tame wild s' ])
            ≡ some (wild_matches wild tame)
      finish (return b) later p = ap some p
      finish (continue s') later (v', less) = later s' v' (omega arith)

-- `fast_wild_match` always returns, and it returns true exactly when the string matches the pattern.
pub fast_wild_match-wild_matches :
    (tame wild : Bytes) → fast_wild_match tame wild ≡ some (wild_matches wild tame)
unfolding fast_wild_match
fast_wild_match-wild_matches tame wild =
    matching_lem tame wild (rounds tame) start (omega arith, inl (refl, refl, refl)) (ground arith)
