-- ===== src/Keys/Sorting.antt =====
-- `sort.Strings`: the byte order on strings, and a sort by it.
use confluo.Prelude.{Text, Bool, true, false, List, [], ◌∷◌, ltb, ◌==◌, ◌&&◌, ◌||◌, if◌then◌else◌}

-- `a <= b` on strings
unfoldable pub text_leb : Text → Text → Bool
text_leb [] bs = true
text_leb (a ∷ as') [] = false
text_leb (a ∷ as') (b ∷ bs) = ltb a b || ((a == b) && text_leb as' bs)

unfoldable pub place : Text → List Text → List Text
unfolding text_leb
place a [] = a ∷ []
place a (b ∷ bs) = if text_leb a b then a ∷ b ∷ bs else b ∷ place a bs

unfoldable pub sort : List Text → List Text
unfolding place
sort [] = []
sort (a ∷ as') = place a (sort as')
