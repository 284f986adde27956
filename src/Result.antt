-- ===== src/Result.antt =====
-- Python's exceptions as values, with the text that the program raises them with.
use hyper_looms.Prelude.{String, List, [], ◌∷◌, ◌≡◌, refl, ◌⊎◌, inl, inr}
use Prim.Native.String.{◌++◌ as str_append}

pub data Error : Type 0 where
  value_error key_error runtime_error type_error : String → Error

pub data Result {ℓ} (A : Type ℓ) : Type ℓ where
  ok : A → Result A
  err : Error → Result A

-- f"{a}{b}…"
abbrev pub concat : List String → String
concat [] = ""
concat (s ∷ ss) = str_append s (concat ss)

pub Result-cases {ℓ} :
    {A : Type ℓ} (r : Result A) → ((e : Error) × (r ≡ err e)) ⊎ ((a : A) × (r ≡ ok a))
Result-cases (ok a) = inr (a, refl)
Result-cases (err e) = inl (e, refl)

-- What holds of each outcome holds of the case split on the result.
pub result_ind {ℓ κ μ} :
    {A : Type ℓ} {B : Type κ} (P : B → Type μ) (r : Result A) {f : Error → B} {g : A → B}
    → ((e : Error) → r ≡ err e → P (f e))
    → ((a : A) → r ≡ ok a → P (g a))
    → P (elim r [ err e ↦ f e | ok a ↦ g a ])
result_ind P (err e) hf hg = hf e refl
result_ind P (ok a) hf hg = hg a refl
