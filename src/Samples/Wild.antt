-- ===== src/Samples/Wild.antt =====
-- Cases of `test_wild`, and the theorem at one of them.
use isar_core.Prelude.{◌≡◌, refl}
use isar_core.Prelude.{true, false, some, [], ◌∷◌}
use isar_core.Prelude.Bytes.{Bytes}
use isar_core.Query.FastWildMatch.{fast_wild_match}
use isar_core.Query.FastWildMatch.Reference.{wild_matches}
use isar_core.Query.FastWildMatch.Correct.{fast_wild_match-wild_matches}

-- "caaab" and "*a?b".
abbrev tame : Bytes
tame = b'c' ∷ b'a' ∷ b'a' ∷ b'a' ∷ b'b' ∷ []

abbrev wild : Bytes
wild = b'*' ∷ b'a' ∷ b'?' ∷ b'b' ∷ []

matches : fast_wild_match tame wild ≡ some true
unfolding fast_wild_match
matches = refl

needs_two : fast_wild_match (b'a' ∷ []) (b'?' ∷ b'?' ∷ []) ≡ some false
unfolding fast_wild_match
needs_two = refl

empty_pattern : fast_wild_match (b'a' ∷ []) [] ≡ some false
unfolding fast_wild_match
empty_pattern = refl

fast_wild_match-wild_matches_example : fast_wild_match tame wild ≡ some (wild_matches wild tame)
fast_wild_match-wild_matches_example = fast_wild_match-wild_matches tame wild
