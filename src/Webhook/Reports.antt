-- ===== src/Webhook/Reports.antt =====
-- The lists of field errors that the validators join.
use cluster_api_provider_ver.Base.{List, none, ◌≡◌, ◌∷◌, ◌++◌, [], refl, ◌↔◌}
use cluster_api_provider_ver.Webhook.Admission.{aggregate}
use cluster_api_provider_ver.Webhook.Validation.{FieldError}

pub aggregate-append :
    (xs ys : List FieldError) → (aggregate (xs ++ ys) ≡ none) ↔ ((aggregate xs ≡ none) × (ys ≡ []))
unfolding aggregate
aggregate-append [] [] = (λ h. (refl, refl), λ h. refl)
aggregate-append [] (y ∷ ys) = (λ h. cc, λ h. cc)
aggregate-append (x ∷ xs) ys = (λ h. cc, λ h. cc)

pub aggregate-nil : (xs : List FieldError) → aggregate xs ≡ none → xs ≡ []
unfolding aggregate
aggregate-nil [] h = refl
aggregate-nil (x ∷ xs) h = cc

pub append-nil_iff : {A : Type 0} (xs ys : List A) → (xs ++ ys ≡ []) ↔ ((xs ≡ []) × (ys ≡ []))
append-nil_iff [] ys = (λ h. (refl, h), λ h. h.1)
append-nil_iff (x ∷ xs) ys = (λ h. cc, λ h. cc)
