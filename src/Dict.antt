-- ===== src/Dict.antt =====
-- Python's `dict`: an association list in the order of insertion.
use hyper_looms.Prelude.{
  ◌≡◌, refl, ◌≢◌, Bool, true, false, Option, none, some, List, [], ◌∷◌, arith, Eq, Bool-cases, inl,
  inr, All, ◌==◌, beq_refl, if◌then◌else◌, is_some,
}

abbrev pub Dict {ℓ κ} : Type ℓ → Type κ → Type (ℓ ⊔ κ)
Dict K V = List (K × V)

module _ {ℓ κ} {K : Type ℓ} {V : Type κ} where
  -- d.values()
  abbrev pub values : Dict K V → List V
  values [] = []
  values ((_, v) ∷ d) = v ∷ values d

module _ {ℓ κ} {K : Type ℓ} {V : Type κ} ⦃e : Eq K⦄ where
  -- d.get(k)
  unfoldable pub get : Dict K V → K → Option V
  get [] k = none
  get ((j, v) ∷ d) k = if j == k then some v else get d k

  -- k in d
  abbrev pub has : Dict K V → K → Bool
  has d k = is_some (get d k)

  -- d[k] = v: an old key keeps its place, a new one comes last.
  unfoldable pub put : Dict K V → K → V → Dict K V
  put [] k v = (k, v) ∷ []
  put ((j, w) ∷ d) k v = if j == k then (j, v) ∷ d else (j, w) ∷ put d k v

  -- d.pop(k, None)
  unfoldable pub remove : Dict K V → K → Dict K V
  remove [] k = []
  remove ((j, w) ∷ d) k = let rest = remove d k in if j == k then rest else (j, w) ∷ rest

  -- d[k] = w, then d.get(i)
  pub get-put :
      (d : Dict K V) (k i : K) (w : V) → get (put d k w) i ≡ (if k == i then some w else get d i)
  unfolding get put
  get-put [] k i w = refl
  get-put ((j, v) ∷ d) k i w =
      ground (arith, get-put d k i w, e.beq_iff k i, e.beq_iff j k, e.beq_iff j i)

  -- d.pop(k, None), then d.get(i)
  pub get-remove :
      (d : Dict K V) (k i : K) → get (remove d k) i ≡ (if k == i then none else get d i)
  unfolding get remove
  get-remove [] k i = ground arith
  get-remove ((j, v) ∷ d) k i =
      ground (arith, get-remove d k i, e.beq_iff k i, e.beq_iff j k, e.beq_iff j i)

  pub get-put_self : (d : Dict K V) (k : K) (v : V) → get (put d k v) k ≡ some v
  get-put_self d k v = ground (arith, get-put d k k v, beq_refl k)

  pub get-put_ne : (d : Dict K V) (k j : K) (v : V) → k ≢ j → get (put d k v) j ≡ get d j
  get-put_ne d k j v h = ground (arith, get-put d k j v, e.beq_iff k j)

  pub get-empty : (k : K) → get (let d : Dict K V = [] in d) k ≡ none
  unfolding get
  get-empty k = refl

  -- A key that is there stays there.
  pub has-put : (d : Dict K V) (k i : K) (w : V) → has d i ≡ true → has (put d k w) i ≡ true
  has-put d k i w h = ground (arith, get-put d k i w)

  pub has-put_self : (d : Dict K V) (k : K) (w : V) → has (put d k w) k ≡ true
  has-put_self d k w = ground (arith, get-put_self d k w)

  pub has-remove : (d : Dict K V) (k i : K) → k ≢ i → has d i ≡ true → has (remove d k) i ≡ true
  has-remove d k i ne h = ground (arith, get-remove d k i, e.beq_iff k i)

  -- No key stands twice.
  abbrev pub IsUnique : Dict K V → Type 0
  IsUnique [] = Unit
  IsUnique ((k, _) ∷ d) = (has d k ≡ false) × IsUnique d

  pub put-IsUnique : (d : Dict K V) (k : K) (w : V) → IsUnique d → IsUnique (put d k w)
  unfolding get put
  put-IsUnique [] k w u = (refl, tt)
  put-IsUnique ((j, v) ∷ d) k w (apart, u) = elim (Bool-cases (j == k)) [
    | inl same ↦ rw same (apart, u)
    | inr other ↦
        rw other
          (ground (arith, get-put d k j w, e.beq_iff k j, e.beq_iff j k), put-IsUnique d k w u)
  ]

  -- What holds of each entry that can be read holds of all values.
  pub All-values {μ} :
      (P : V → Type μ) (d : Dict K V)
      → IsUnique d
      → ((k : K) (v : V) → get d k ≡ some v → P v)
      → All P (values d)
  unfolding get
  All-values P [] u h = tt
  All-values P ((j, v) ∷ d) (apart, u) h = (
    h j v (ground (arith, beq_refl j)),
    All-values P d u (λ k w found. h k w (ground (arith, e.beq_iff j k))),
  )
