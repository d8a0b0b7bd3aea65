-- ===== src/Base/Sort.antt =====
-- The order of Go's strings, and slices.Sort on them.
-- cmp.Compare on strings, as a test that the first is not the greater.
use cluster_api_provider_ver.Base.Tests.{if◌then◌else◌, nat_eq, ltb}
use cluster_api_provider_ver.Base.{false, [], ◌∷◌, true, ◌&&◌, List, String, ℕ, Bool}
use cluster_api_provider_ver.Base.Text.{codes}

unfoldable pub codes_leb : List ℕ → List ℕ → Bool
codes_leb [] _ = true
codes_leb (_ ∷ _) [] = false
codes_leb (a ∷ xs) (b ∷ ys) =
    let rest = codes_leb xs ys in if ltb a b then true else nat_eq a b && rest

-- slices.Sort on texts, by insertion.
unfoldable pub insert_text : String → List String → List String
insert_text x [] = x ∷ []
insert_text x (y ∷ ys) =
    let later = insert_text x ys in if codes_leb (codes y) (codes x) then y ∷ later else x ∷ y ∷ ys

unfoldable pub sort_texts : List String → List String
sort_texts [] = []
sort_texts (x ∷ xs) = insert_text x (sort_texts xs)
