-- ===== src/Base/Distinct.antt =====
-- Membership of texts in lists, and lists without a repetition.
use cluster_api_provider_ver.Base.{
  arith, true, false, List, ◌++◌, ◌≡◌, [], String, eq_iff, ◌||◌, ◌==◌, ◌∷◌, refl, Bool, ◌&&◌,
}
use cluster_api_provider_ver.Base.Tests.{if◌then◌else◌}

unfoldable pub contains : String → List String → Bool
contains a [] = false
contains a (x ∷ xs) = let rest = contains a xs in if x == a then true else rest

pub contains-append :
    (a : String) (xs ys : List String) → contains a (xs ++ ys) ≡ (contains a xs || contains a ys)
unfolding contains
contains-append a [] ys = refl
contains-append a (x ∷ xs) ys = ground (arith, contains-append a xs ys)

-- No id occurs twice.
abbrev pub AllDistinct : List String → Type 0
AllDistinct [] = Unit
AllDistinct (x ∷ xs) = (contains x xs ≡ false) × AllDistinct xs

pub AllDistinct-append :
    (xs : List String) (id : String)
    → AllDistinct xs
    → contains id xs ≡ false
    → AllDistinct (xs ++ (id ∷ []))
unfolding contains
AllDistinct-append [] id d h = ground arith
AllDistinct-append (x ∷ xs) id d h =
    ground (
      arith,
      AllDistinct-append xs id d.1,
      contains-append x xs (id ∷ []),
      eq_iff x id,
      eq_iff id x,
    )

pub AllDistinct-join :
    (xs ys : List String)
    → AllDistinct xs
    → AllDistinct ys
    → ((x : String) → contains x ys ≡ true → contains x xs ≡ false)
    → AllDistinct (xs ++ ys)
unfolding contains
AllDistinct-join [] ys d e apart = e
AllDistinct-join (x ∷ xs) ys d e apart =
    let rest = AllDistinct-join xs ys d.1 e (λ z h. ground (arith, apart z h)) in
    (ground (arith, contains-append x xs ys, apart x, eq_iff x x), rest)

-- slices.Equal on texts
unfoldable pub texts_eq : List String → List String → Bool
texts_eq [] [] = true
texts_eq (x ∷ xs) (y ∷ ys) = x == y && texts_eq xs ys
texts_eq _ _ = false
