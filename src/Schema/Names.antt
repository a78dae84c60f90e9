-- ===== src/Schema/Names.antt =====
-- The comparison of names, and the searches by a test.
use Prim.Native.String.{String, compare}
use isar_core.Prelude.{ℕ, suc, Bool, if◌then◌else◌, Option, none, some, List, [], ◌∷◌, any, is_eq}

abbrev pub eq_string : String → String → Bool
eq_string a b = is_eq (compare a b)

abbrev pub is_empty : String → Bool
is_empty s = eq_string s ""

-- `iter().find(test)`.
unfoldable pub find {ℓ} : {A : Type ℓ} → (A → Bool) → List A → Option A
find test [] = none
find test (x ∷ xs) = if test x then some x else find test xs

-- `iter().unique().count()`, with the elements seen so far.
unfoldable pub count_unique : List String → List String → ℕ
count_unique seen [] = 0
count_unique seen (x ∷ xs) =
    let rest = count_unique (x ∷ seen) xs in if any (eq_string x) seen then rest else suc rest
