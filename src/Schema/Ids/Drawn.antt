-- ===== src/Schema/Ids/Drawn.antt =====
-- The ids that are drawn are new, and the drawing ends.
use isar_core.Prelude.{ℕ, zero, suc, ◌+◌, ◌≤◌, ◌<◌, ◌≡◌, ap, inl, inr, arith}
use isar_core.Prelude.{false, List, ◌∷◌, Bool-cases, true}
use mathlib.Core.Path.{subst}
use isar_core.Error.{ok}
use isar_core.Query.Execute.{contains}
use isar_core.Schema.Ids.{get_id}

-- The number that is drawn, the first of the next that is not in use.
abbrev pub Draws : (ℕ → ℕ) → ℕ → List ℕ → ℕ → ℕ → Type 0
Draws random rounds ids drawn k =
    (j : ℕ) × (j ≤ k)
    × (get_id random rounds (ids, drawn)
        ≡ ok (random (drawn + j), (random (drawn + j) ∷ ids, drawn + j + 1)))
    × (contains ids (random (drawn + j)) ≡ false)
    × ((i : ℕ) → i < j → contains ids (random (drawn + i)) ≡ true)

Draws-here :
    (random : ℕ → ℕ) (rounds : ℕ) (ids : List ℕ) (drawn k : ℕ)
    → contains ids (random drawn) ≡ false
    → Draws random (suc rounds) ids drawn k
unfolding get_id
Draws-here random rounds ids drawn k new =
    let same : drawn ≡ drawn + 0 = omega arith in
    (
      0,
      omega arith,
      subst (λ n. get_id random (suc rounds) (ids, drawn) ≡ ok (random n, (random n ∷ ids, n + 1)))
          same
          (rw (get_id, new) (ap (λ n. ok (random drawn, (random drawn ∷ ids, n))) (omega arith))),
      subst (λ n. contains ids (random n) ≡ false) same new,
      λ i h. absurd (omega arith),
    )

Draws-later :
    (random : ℕ → ℕ) (rounds : ℕ) (ids : List ℕ) (drawn k : ℕ)
    → contains ids (random drawn) ≡ true
    → Draws random rounds ids (suc drawn) k
    → Draws random (suc rounds) ids drawn (suc k)
unfolding get_id
Draws-later random rounds ids drawn k used (j, least, e, new, before) =
    let same : suc drawn + j ≡ drawn + suc j = omega arith in
    (
      suc j,
      omega arith,
      subst (λ n. get_id random (suc rounds) (ids, drawn) ≡ ok (random n, (random n ∷ ids, n + 1)))
          same (rw (get_id, used) e),
      subst (λ n. contains ids (random n) ≡ false) same new,
      used_before,
    )
  where
    used_before : (i : ℕ) → i < suc j → contains ids (random (drawn + i)) ≡ true
    used_before zero h = subst (λ n. contains ids (random n) ≡ true) (omega arith) used
    used_before (suc i) h =
        subst (λ n. contains ids (random n) ≡ true) (omega arith) (before i (omega arith))

-- When one of the next numbers is not in use, and there are enough rounds to reach it, the drawing ends, at the
-- first of the next numbers that is not in use: it returns this number, the drawn numbers before it were all
-- in use, and from then on it is in use too.
pub get_id-Draws :
    (random : ℕ → ℕ) (rounds : ℕ) (ids : List ℕ) (drawn : ℕ) (k : ℕ)
    → k < rounds
    → contains ids (random (drawn + k)) ≡ false
    → Draws random rounds ids drawn k
get_id-Draws random zero ids drawn k h free = absurd (omega arith)
get_id-Draws random (suc rounds) ids drawn zero h free =
    Draws-here random rounds ids drawn zero
      (subst (λ n. contains ids (random n) ≡ false) (omega arith) free)
get_id-Draws random (suc rounds) ids drawn (suc k) h free =
    elim (Bool-cases (contains ids (random drawn))) [
      | inr new ↦ Draws-here random rounds ids drawn (suc k) new
      | inl used ↦ Draws-later random rounds ids drawn k used (
          get_id-Draws random rounds ids (suc drawn) k (omega arith)
            (subst (λ n. contains ids (random n) ≡ false) (omega arith) free))
    ]
