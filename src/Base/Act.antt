-- ===== src/Base/Act.antt =====
-- Actions on a world: what a Go function with an error result does. What was done before an error
-- stays done, so the world comes back beside the error too.
use cluster_api_provider_ver.Base.Error.{Error}

pub data Result {ℓ} (A : Type ℓ) : Type ℓ where
  ok : A → Result A
  err : Error → Result A

abbrev pub Act : Type 0 → Type 0 → Type 0
Act W A = W → Result A × W

module _ {W A : Type 0} where
  abbrev pub pure : A → Act W A
  pure a w = (ok a, w)

  abbrev pub raise : Error → Act W A
  raise e w = (err e, w)

  abbrev pub gets : (W → A) → Act W A
  gets f w = (ok (f w), w)

abbrev pub modify : {W : Type 0} → (W → W) → Act W (Unit {0})
modify f w = (ok tt, f w)

module _ {W A B : Type 0} where
  -- a, err := m; if err != nil { fail(err) }; next(a)
  abbrev pub handle : Act W A → (Error → Act W B) → (A → Act W B) → Act W B
  handle m fail next w = let (r, w') = m w in elim r [ ok a ↦ next a w' | err e ↦ fail e w' ]

  infixl 5 ◌>>=◌ ◌>>◌
  -- if err != nil { return err }
  abbrev pub ◌>>=◌ : Act W A → (A → Act W B) → Act W B
  m >>= f = handle m raise f

  abbrev pub ◌>>◌ : Act W A → Act W B → Act W B
  m >> k = m >>= λ _. k
