-- ===== src/Base/Outcomes.antt =====
-- What a handled action does once the result of its first part is known.
use cluster_api_provider_ver.Base.{◌≡◌, ap, refl, ◌∙◌, true, Bool, false}
use cluster_api_provider_ver.Base.Error.{Error}
use cluster_api_provider_ver.Base.Act.{Act, Result, ok, err, handle}
use cluster_api_provider_ver.Base.Tests.{if◌then◌else◌}

module _ {W A B : Type 0} (m : Act W A) (fail : Error → Act W B) (next : A → Act W B) where
  pub handle-ok : (w : W) (a : A) (w' : W) → m w ≡ (ok a, w') → handle m fail next w ≡ next a w'
  handle-ok w a w' p =
      ap (λ (x : Result A × W). elim x.0 [ ok b ↦ next b x.1 | err e ↦ fail e x.1 ]) p

  pub handle-err :
      (w : W) (e : Error) (w' : W) → m w ≡ (err e, w') → handle m fail next w ≡ fail e w'
  handle-err w e w' p =
      ap (λ (x : Result A × W). elim x.0 [ ok b ↦ next b x.1 | err d ↦ fail d x.1 ]) p

abbrev pub outcome_of :
    {W A B : Type 0} → (Error → Act W B) → (A → Act W B) → Result A × W → Result B × W
outcome_of fail next x = elim x.0 [ ok a ↦ next a x.1 | err e ↦ fail e x.1 ]

module _ {W A B : Type 0} (fail : Error → Act W B) (next next' : A → Act W B) where
  same_outcome :
      (x : Result A × W)
      → ((a : A) (w' : W) → x ≡ (ok a, w') → next a w' ≡ next' a w')
      → outcome_of fail next x ≡ outcome_of fail next' x
  same_outcome (ok a, w') same = same a w' refl
  same_outcome (err e, w') same = refl

  -- Two actions that begin the same and go on the same from the results that there are.
  pub handle-same :
      (m m' : Act W A) (w : W)
      → m w ≡ m' w
      → ((a : A) (w' : W) → m' w ≡ (ok a, w') → next a w' ≡ next' a w')
      → handle m fail next w ≡ handle m' fail next' w
  handle-same m m' w p same = ap (outcome_of fail next) p ∙ same_outcome (m' w) same

-- A test between actions that do the same at a world.
pub choose-same :
    {W A : Type 0} (b : Bool) (x y x' y' : Act W A) (w : W)
    → x w ≡ x' w
    → y w ≡ y' w
    → (if b then x else y) w ≡ (if b then x' else y') w
choose-same true x y x' y' w p q = p
choose-same false x y x' y' w p q = q

-- A test between two values.
pub choose-value :
    {A : Type 0} {x y x' y' : A} (b : Bool)
    → x ≡ x'
    → y ≡ y'
    → (if b then x else y) ≡ (if b then x' else y')
choose-value true p q = p
choose-value false p q = q
