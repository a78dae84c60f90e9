-- ===== src/Query/FastWildMatch/Reference.antt =====
-- What it means that a string matches a pattern: `*` stands for any bytes, `?` for any one byte, and each
-- other byte for itself.
use isar_core.Prelude.{Bool, true, false, ◌&&◌, ◌||◌, ◌==◌, if◌then◌else◌, [], ◌∷◌}
use isar_core.Prelude.Bytes.{Bytes}
use isar_core.Query.FastWildMatch.{asterisk, question_mark}

-- Whether some rest of the string is accepted.
unfoldable pub some_rest : (Bytes → Bool) → Bytes → Bool
some_rest f [] = f []
some_rest f (t ∷ ts) = f (t ∷ ts) || some_rest f ts

unfoldable pub wild_matches : Bytes → Bytes → Bool
unfolding some_rest
wild_matches [] [] = true
wild_matches [] (t ∷ ts) = false
wild_matches (w ∷ ws) [] = if w == asterisk then some_rest (wild_matches ws) [] else false
wild_matches (w ∷ ws) (t ∷ ts) =
    if w == asterisk
    then some_rest (wild_matches ws) (t ∷ ts)
    else ((w == question_mark) || (w == t)) && wild_matches ws ts
