-- ===== src/Overlay/Merging.antt =====
-- The loop that merges the ranked ids, against a reference: the first distinct ones.
use hyper_looms.Prelude.{
  ℕ, zero, suc, ◌-◌, ◌+◌, ◌<◌, ◌≤◌, String, ◌≡◌, ◌∙◌, sym, ap, refl, false, List, [], ◌∷◌, ◌++◌,
  arith, string_eq, Bool-cases, inl, inr, leb, length, take, contains, contains-append,
  length-append,
}
use hyper_looms.Store.Planning.{unique, unique_from}
use hyper_looms.Overlay.Decide.{merge_ids}

append_nil : (xs : List String) → xs ++ [] ≡ xs
append_nil [] = refl
append_nil (x ∷ xs) = ap (λ l. x ∷ l) (append_nil xs)

append_assoc : (xs ys zs : List String) → (xs ++ ys) ++ zs ≡ xs ++ (ys ++ zs)
append_assoc [] ys zs = refl
append_assoc (x ∷ xs) ys zs = ap (λ l. x ∷ l) (append_assoc xs ys zs)

take_nothing : (n : ℕ) → take n (let none_left : List String = [] in none_left) ≡ []
take_nothing zero = refl
take_nothing (suc n) = refl

leb-false : (a b : ℕ) → b < a → leb a b ≡ false
leb-false a b h = ground arith

-- Only what has been seen counts, not its order.
unique_from-same :
    (s t xs : List String)
    → ((y : String) → contains y s ≡ contains y t)
    → unique_from s xs ≡ unique_from t xs
unfolding unique_from
unique_from-same s t [] h = refl
unique_from-same s t (x ∷ xs) h = ground (
  arith,
  h x,
  unique_from-same s t xs h,
  unique_from-same (x ∷ s) (x ∷ t) xs (λ y. ground (arith, h y)),
)

merge_ids_rest :
    (target : ℕ) (merged items : List String)
    → length merged < target
    → merge_ids target merged items
      ≡ merged ++ take (target - length merged) (unique_from merged items)
unfolding merge_ids unique_from
merge_ids_rest target merged [] h =
    sym (append_nil merged) ∙ ap (λ l. merged ++ l) (sym (take_nothing (target - length merged)))
merge_ids_rest target merged (item ∷ items) h = elim (Bool-cases (contains item merged)) [
  | inl old ↦ rw (old, leb-false target (length merged) h) (merge_ids_rest target merged items h)
  | inr new ↦
      let merged' = merged ++ item ∷ [] in
      let longer : length merged' ≡ length merged + 1 = length-append merged (item ∷ []) in
      let reorder : unique_from merged' items ≡ unique_from (item ∷ merged) items =
        unique_from-same merged' (item ∷ merged) items
          (λ y. ground (arith, contains-append y merged (item ∷ []))) in
      elim (Bool-cases (leb target (length merged'))) [
        | inl full ↦
            let one : target - length merged ≡ 1 = ground (arith, longer) in
            rw (new, full, one) refl
        | inr short ↦
            let more : target - length merged ≡ suc (target - length merged') =
              ground (arith, longer) in
            let rest = merge_ids_rest target merged' items (ground (arith, longer)) in
            rw (new, short, more)
              (rest
                ∙ ap (λ l. merged' ++ take (target - length merged') l) reorder
                ∙ append_assoc merged (item ∷ [])
                    (take (target - length merged') (unique_from (item ∷ merged) items)))
      ]
]

-- For a positive target, the loop gives the first `target` distinct ids, in their order.
pub merge_ids-unique :
    (target : ℕ) (items : List String)
    → 1 ≤ target
    → merge_ids target [] items ≡ take target (unique items)
unfolding unique
merge_ids-unique target items some_target =
    let all : target - 0 ≡ target = omega arith in
    merge_ids_rest target [] items (omega arith) ∙ ap (λ n. take n (unique_from [] items)) all
