-- ===== src/Common/Rows.antt =====
-- Rows of a table by their presence in it, and updates that go by the rows' ids.
use doc_chat_template_scc.Common.{
  ◌≡◌, refl, sym, subst, ◌⊎◌, inl, inr, Bool, true, ◌&&◌, List, [], ◌∷◌, ◌++◌, arith, exists,
  select, update, first, some, Bool-cases, if◌then◌else◌, All,
}

module _ {A : Type 0} where
  abbrev pub Elem : A → List A → Type 0
  Elem x [] = ⊥
  Elem x (y ∷ ys) = (x ≡ y) ⊎ Elem x ys

  pub exists_found :
      (p : A → Bool) (xs : List A) → exists p xs ≡ true → (x : A) × (p x ≡ true) × Elem x xs
  unfolding exists
  exists_found p [] h = ground arith
  exists_found p (x ∷ xs) h = elim (Bool-cases (p x)) [
    | inl e ↦ (x, e, inl refl)
    | inr e ↦ let (y, k, m) = exists_found p xs (ground arith) in (y, k, inr m)
  ]

  pub exists_intro :
      (p : A → Bool) (x : A) (xs : List A) → Elem x xs → p x ≡ true → exists p xs ≡ true
  unfolding exists
  exists_intro p x (y ∷ ys) (inl e) h = let k : p y ≡ true = subst (λ z. p z ≡ true) e h in rw k
  exists_intro p x (y ∷ ys) (inr m) h = ground (arith, exists_intro p x ys m h)
  exists_intro p x [] m h = absurd m

  -- Two tests that agree on the rows of a table find the same.
  pub exists_congr-Elem :
      (p q : A → Bool) (xs : List A) → ((x : A) → Elem x xs → p x ≡ q x) → exists p xs ≡ exists q xs
  unfolding exists
  exists_congr-Elem p q [] h = refl
  exists_congr-Elem p q (x ∷ xs) h =
      rw (h x (inl refl), exists_congr-Elem p q xs (λ y m. h y (inr m)))

  pub exists-select :
      (p q : A → Bool) (xs : List A) → exists q (select p xs) ≡ exists (λ x. p x && q x) xs
  unfolding exists select
  exists-select p q [] = refl
  exists-select p q (x ∷ xs) = ground (arith, exists-select p q xs)

  pub Elem-append : (x : A) (xs ys : List A) → Elem x (xs ++ ys) → Elem x xs ⊎ Elem x ys
  Elem-append x [] ys m = inr m
  Elem-append x (z ∷ zs) ys (inl e) = inl (inl e)
  Elem-append x (z ∷ zs) ys (inr m) = elim (Elem-append x zs ys m) [
    | inl k ↦ inl (inr k)
    | inr k ↦ inr k
  ]

  -- A row of an updated table is a row that the update left, or the update of one that it met.
  pub Elem-update :
      (p : A → Bool) (f : A → A) (x : A) (xs : List A)
      → Elem x (update p f xs)
      → (y : A) × Elem y xs × (x ≡ (if p y then f y else y))
  unfolding update
  Elem-update p f x (y ∷ ys) (inl e) = (y, inl refl, e)
  Elem-update p f x (y ∷ ys) (inr m) = let (z, k, e) = Elem-update p f x ys m in (z, inr k, e)
  Elem-update p f x [] m = absurd m

  pub first_found :
      (p : A → Bool) (xs : List A) (x : A) → first p xs ≡ some x → (p x ≡ true) × Elem x xs
  unfolding first
  first_found p [] x h = ground arith
  first_found p (y ∷ ys) x h = elim (Bool-cases (p y)) [
    | inl e ↦ let q : y ≡ x = ground arith in (subst (λ z. p z ≡ true) q e, inl (sym q))
    | inr e ↦ let (k, m) = first_found p ys x (ground arith) in (k, inr m)
  ]

  pub All_elem {κ} : (P : A → Type κ) (x : A) (xs : List A) → All P xs → Elem x xs → P x
  All_elem P x (y ∷ ys) a (inl e) = subst P (sym e) a.0
  All_elem P x (y ∷ ys) a (inr m) = All_elem P x ys a.1 m
  All_elem P x [] a m = absurd m
