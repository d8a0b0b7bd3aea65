-- ===== src/Base/Dict.antt =====
-- Go's map[string]V as an association list: the first entry of a key counts, and a nil map is the
-- empty one. Order is that of insertion; the program depends on it only where a loop over a map says.
use Prim.Native.String.{String}
use mathlib.Core.Path.{◌≡◌, refl}
use mathlib.Core.Option.{Option, none, some}
use mathlib.Core.List.{List, [], ◌∷◌}
use native.Mathlib.Omega.{arith}
use text.Mathlib.Text.{◌==◌}
use text.Mathlib.TextEquality.{eq_iff}
use cluster_api_provider_ver.Base.Tests.{if◌then◌else◌}

abbrev pub Dict {ℓ} : Type ℓ → Type ℓ
Dict V = List (String × V)

module _ {ℓ} {V : Type ℓ} where
  -- v, ok := m[k]
  unfoldable pub lookup : String → Dict V → Option V
  lookup key [] = none
  lookup key ((name, value) ∷ rest) = if name == key then some value else lookup key rest

  -- delete(m, k)
  unfoldable pub erase : String → Dict V → Dict V
  erase key [] = []
  erase key ((name, value) ∷ rest) =
      let kept = erase key rest in if name == key then kept else (name, value) ∷ kept

  -- m[k] = v
  unfoldable pub insert : String → V → Dict V → Dict V
  insert key new [] = (key, new) ∷ []
  insert key new ((name, value) ∷ rest) =
      let later = insert key new rest in
      if name == key then (name, new) ∷ rest else (name, value) ∷ later

  pub lookup-erase :
      (key other : String) (m : Dict V)
      → lookup other (erase key m) ≡ (if key == other then none else lookup other m)
  unfolding lookup erase
  lookup-erase key other [] = ground arith
  lookup-erase key other ((name, value) ∷ rest) =
      ground
        (arith, lookup-erase key other rest, eq_iff key other, eq_iff name key, eq_iff name other)

  pub lookup-insert :
      (key other : String) (new : V) (m : Dict V)
      → lookup other (insert key new m) ≡ (if key == other then some new else lookup other m)
  unfolding lookup insert
  lookup-insert key other new [] = refl
  lookup-insert key other new ((name, value) ∷ rest) = ground (
    arith,
    lookup-insert key other new rest,
    eq_iff key other,
    eq_iff name key,
    eq_iff name other,
  )

pub ruleset dict_laws = (lookup-insert, lookup-erase)

-- m[k] of a map[string]string: the empty text where the key is missing.
unfoldable pub get_text : String → Dict String → String
get_text k m = elim (lookup k m) [ none ↦ "" | some v ↦ v ]

pub get_text-insert :
    (k j v : String) (m : Dict String)
    → get_text j (insert k v m) ≡ (if k == j then v else get_text j m)
unfolding get_text
get_text-insert k j v m = ground (arith, lookup-insert k j v m)
