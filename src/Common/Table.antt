-- ===== src/Common/Table.antt =====
-- A table as the list of its rows, in the order of their row ids, and the statements on it:
-- SELECT, SELECT 1 (as a truth value), UPDATE and the first row of a SELECT.
use Prim.Native.Nat.{ℕ, zero, suc}
use mathlib.Core.Path.{◌≡◌, refl, ap, fun_ext, subst}
use mathlib.Core.Bool.{Bool, true, false, ◌&&◌, ◌||◌}
use mathlib.Core.Logic.{inl, inr}
use mathlib.Core.Option.{Option, none, some}
use mathlib.Core.List.{List, [], ◌∷◌, ◌++◌}
use native.Mathlib.Omega.{arith}
use doc_chat_template_scc.Common.Bools.{if◌then◌else◌, Bool-cases, is_some}

module _ {ℓ} {A : Type ℓ} where
  abbrev pub length : List A → ℕ
  length [] = 0
  length (x ∷ xs) = suc (length xs)

  abbrev pub get_elem? : List A → ℕ → Option A
  get_elem? [] i = none
  get_elem? (x ∷ xs) zero = some x
  get_elem? (x ∷ xs) (suc i) = get_elem? xs i

  -- a statement about every element
  abbrev pub All {κ} : (A → Type κ) → List A → Type κ
  All P [] = Unit
  All P (x ∷ xs) = P x × All P xs

  unfoldable pub select : (A → Bool) → List A → List A
  select p [] = []
  select p (x ∷ xs) = let rest = select p xs in if p x then x ∷ rest else rest

  unfoldable pub exists : (A → Bool) → List A → Bool
  exists p [] = false
  exists p (x ∷ xs) = p x || exists p xs

  unfoldable pub first : (A → Bool) → List A → Option A
  first p [] = none
  first p (x ∷ xs) = if p x then some x else first p xs

  unfoldable pub update : (A → Bool) → (A → A) → List A → List A
  update p f [] = []
  update p f (x ∷ xs) = (if p x then f x else x) ∷ update p f xs

  pub exists-append :
      (p : A → Bool) (xs ys : List A) → exists p (xs ++ ys) ≡ (exists p xs || exists p ys)
  unfolding exists
  exists-append p [] ys = refl
  exists-append p (x ∷ xs) ys = ground (arith, exists-append p xs ys)

  pub exists-update :
      (p q : A → Bool) (f : A → A) (xs : List A)
      → exists p (update q f xs) ≡ exists (λ x. p (if q x then f x else x)) xs
  unfolding exists update
  exists-update p q f [] = refl
  exists-update p q f (x ∷ xs) = ground (arith, exists-update p q f xs)

  pub exists_congr :
      (p q : A → Bool) (xs : List A) → ((x : A) → p x ≡ q x) → exists p xs ≡ exists q xs
  exists_congr p q xs h = ap (λ r. exists r xs) (fun_ext h)

  pub exists_false : (p : A → Bool) (xs : List A) → ((x : A) → p x ≡ false) → exists p xs ≡ false
  unfolding exists
  exists_false p [] h = refl
  exists_false p (x ∷ xs) h = ground (arith, h x, exists_false p xs h)

  pub exists-and :
      (p : A → Bool) (b : Bool) (xs : List A) → exists (λ x. p x && b) xs ≡ (exists p xs && b)
  unfolding exists
  exists-and p b [] = refl
  exists-and p b (x ∷ xs) = ground (arith, exists-and p b xs)

  -- A row that matches, and that every weaker test finds too.
  pub exists_elim :
      (p : A → Bool) (xs : List A)
      → exists p xs ≡ true
      → (x : A) × (p x ≡ true) × ((q : A → Bool) → q x ≡ true → exists q xs ≡ true)
  unfolding exists
  exists_elim p [] h = ground arith
  exists_elim p (x ∷ xs) h = elim (Bool-cases (p x)) [
    | inl e ↦ (x, e, λ q k. ground arith)
    | inr e ↦
        let (y, k, m) = exists_elim p xs (ground arith) in (y, k, λ q j. ground (arith, m q j))
  ]

  pub exists_mono :
      (p q : A → Bool) (xs : List A)
      → ((x : A) → p x ≡ true → q x ≡ true)
      → exists p xs ≡ true
      → exists q xs ≡ true
  exists_mono p q xs f h = let (x, k, m) = exists_elim p xs h in m q (f x k)

  -- What holds of every row holds of one that a test finds.
  pub All-exists {κ} :
      (P : A → Type κ) (p : A → Bool) (xs : List A)
      → All P xs
      → exists p xs ≡ true
      → (x : A) × (p x ≡ true) × P x
  unfolding exists
  All-exists P p [] a h = ground arith
  All-exists P p (x ∷ xs) a h = elim (Bool-cases (p x)) [
    | inl e ↦ (x, e, a.0)
    | inr e ↦ All-exists P p xs a.1 (ground arith)
  ]

  pub All-append {κ} : (P : A → Type κ) (xs ys : List A) → All P xs → All P ys → All P (xs ++ ys)
  All-append P [] ys a b = b
  All-append P (x ∷ xs) ys a b = (a.0, All-append P xs ys a.1 b)

  pub All-update {κ} :
      (P : A → Type κ) (p : A → Bool) (f : A → A) (xs : List A)
      → ((x : A) → P x → P (f x))
      → All P xs
      → All P (update p f xs)
  unfolding update
  All-update P p f [] h a = tt
  All-update P p f (x ∷ xs) h a = elim (Bool-cases (p x)) [
    | inl e ↦ rw e (h x a.0, All-update P p f xs h a.1)
    | inr e ↦ rw e (a.0, All-update P p f xs h a.1)
  ]

  pub All-mono {κ μ} :
      (P : A → Type κ) (Q : A → Type μ) (xs : List A) → ((x : A) → P x → Q x) → All P xs → All Q xs
  All-mono P Q [] h a = tt
  All-mono P Q (x ∷ xs) h a = (h x a.0, All-mono P Q xs h a.1)

  -- The row that `first` finds matches and has what all rows have.
  pub All-first {κ} :
      (P : A → Type κ) (p : A → Bool) (xs : List A) (x : A)
      → All P xs
      → first p xs ≡ some x
      → P x × (p x ≡ true)
  unfolding first
  All-first P p [] x a h = cc
  All-first P p (y ∷ xs) x a h = elim (Bool-cases (p y)) [
    | inl e ↦ let q : y ≡ x = ground arith in subst (λ z. P z × (p z ≡ true)) q (a.0, e)
    | inr e ↦ All-first P p xs x a.1 (ground arith)
  ]

  pub first-exists : (p : A → Bool) (xs : List A) → is_some (first p xs) ≡ exists p xs
  unfolding first exists
  first-exists p [] = refl
  first-exists p (x ∷ xs) = ground (arith, first-exists p xs)

  pub select-append :
      (p : A → Bool) (xs ys : List A) → select p (xs ++ ys) ≡ select p xs ++ select p ys
  unfolding select
  select-append p [] ys = refl
  select-append p (x ∷ xs) ys = ground (arith, select-append p xs ys)
