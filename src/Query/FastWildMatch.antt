-- ===== src/Query/FastWildMatch.antt =====
-- src/query/fast_wild_match.rs: matching a string with a pattern of `*` and `?`, both as bytes.
pub mod Reference
pub mod Segment
pub mod Search
pub mod Attempt
pub mod Correct
use isar_core.Prelude.{
  ℕ, zero, suc, ◌+◌, ◌-◌, ◌*◌, ◌^◌, ◌≤◌, ◌<◌, ◌≡◌, refl, sym, ap, ◌∙◌, ◌⊎◌, ◌↔◌, inl, inr, arith,
  compare, Ordering, reverse, is_lt, is_le, is_eq,
}
use isar_core.Prelude.{
  Bool, true, false, not, ◌&&◌, ◌||◌, ltb, leb, ◌==◌, if◌then◌else◌, Option, none, some, List, [],
  ◌∷◌, ◌++◌, map, length, take, drop, get_elem?, All, Bool-cases, Option-cases,
}
use isar_core.Prelude.Bytes.{Bytes}

abbrev pub asterisk : ℕ
asterisk = 42

abbrev pub question_mark : ℕ
question_mark = 63

abbrev pub is_byte : ℕ → Option ℕ → Bool
is_byte b none = false
is_byte b (some c) = b == c

-- `==` on what two `get` return.
abbrev pub eq_get : Option ℕ → Option ℕ → Bool
eq_get none none = true
eq_get none (some d) = false
eq_get (some c) none = false
eq_get (some c) (some d) = c == d

abbrev pub is_some : Option ℕ → Bool
is_some none = false
is_some (some c) = true

pub record Positions : Type 0 where
  pub i_wild : ℕ
  pub i_tame : ℕ
  pub i_last : ℕ
  pub i_star : ℕ

pub data Outcome : Type 0 where
  return : Bool → Outcome
  continue : Positions → Outcome

-- `loop { i_wild += 1; if wild.get(i_wild) != Some(&ASTERISK) { break; } }`. The fuel is the length of
-- `wild`: behind it there is no asterisk.
unfoldable pub skip_asterisks : ℕ → Bytes → ℕ → ℕ
skip_asterisks zero wild i_wild = suc i_wild
skip_asterisks (suc fuel) wild i_wild =
    let rest = skip_asterisks fuel wild (suc i_wild) in
    if is_byte asterisk (get_elem? wild (suc i_wild)) then rest else suc i_wild

-- The second `while`: the next position from `i_tame` where the byte at `i_wild` matches. `none` is
-- `return false`, and the fuel is the length of `tame`, behind which there is nothing to match.
unfoldable pub seek : ℕ → Bytes → Bytes → ℕ → ℕ → Option ℕ
seek zero tame wild i_wild i_tame = none
seek (suc fuel) tame wild i_wild i_tame =
    let rest = seek fuel tame wild i_wild (suc i_tame) in
    if not (eq_get (get_elem? tame i_tame) (get_elem? wild i_wild))
      && not (is_byte question_mark (get_elem? wild i_wild))
    then (if is_some (get_elem? tame (suc i_tame)) then rest else none)
    else some i_tame

-- The end of a round, from the second `while` on.
unfoldable pub restart : Bytes → Bytes → ℕ → ℕ → ℕ → Outcome
unfolding seek
restart tame wild i_wild i_tame i_star = elim (seek (length tame) tame wild i_wild i_tame) [
  | none ↦ return false
  | some i ↦ continue (record { i_wild = suc i_wild; i_tame = suc i; i_last = i; i_star = i_star })
]

-- A round that ends at the first `continue`.
abbrev pub advance : Positions → Outcome
advance s = continue (record s { i_wild = suc s.i_wild; i_tame = suc s.i_tame })

-- The case `_` of the match.
unfoldable pub other : Bytes → Bytes → Positions → Outcome
unfolding restart
other tame wild s =
    if eq_get (get_elem? tame s.i_tame) (get_elem? wild s.i_wild)
    then advance s
    else (if s.i_star == 0
        then return false
        else restart tame wild s.i_star (suc s.i_last) s.i_star)

-- A round of the first `while`.
unfoldable pub round : Bytes → Bytes → Positions → Outcome
unfolding skip_asterisks restart other
round tame wild s =
    if is_byte question_mark (get_elem? wild s.i_wild)
    then advance s
    else (if is_byte asterisk (get_elem? wild s.i_wild)
        then (let i_wild = skip_asterisks (length wild) wild s.i_wild in
            if is_some (get_elem? wild i_wild)
            then restart tame wild i_wild s.i_tame i_wild
            else return true)
        else other tame wild s)

-- The last `while` and the result.
unfoldable pub ends : ℕ → Bytes → ℕ → Bool
ends zero wild i_wild = not (is_some (get_elem? wild i_wild))
ends (suc fuel) wild i_wild =
    let rest = ends fuel wild (suc i_wild) in
    if is_byte asterisk (get_elem? wild i_wild) then rest else not (is_some (get_elem? wild i_wild))

-- The first `while`. `none` is out of fuel.
unfoldable pub matching : ℕ → Bytes → Bytes → Positions → Option Bool
unfolding round ends
matching zero tame wild s = none
matching (suc fuel) tame wild s =
    if is_some (get_elem? tame s.i_tame)
    then (elim (round tame wild s) [ return b ↦ some b | continue s' ↦ matching fuel tame wild s' ])
    else some (ends (length wild) wild s.i_wild)

abbrev pub start : Positions
start = record { i_wild = 0; i_tame = 0; i_last = 0; i_star = 0 }

-- As many rounds as there are pairs of a start of an attempt and a position.
abbrev pub rounds : Bytes → ℕ
rounds tame = (length tame + 2) * (length tame + 2)

unfoldable pub fast_wild_match : Bytes → Bytes → Option Bool
unfolding matching
fast_wild_match tame wild = matching (rounds tame) tame wild start
