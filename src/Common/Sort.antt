-- ===== src/Common/Sort.antt =====
-- Python's `sorted(pairs, key=lambda pair: pair[0])`, a stable sort, and its laws.
use doc_chat_template_scc.Common.{
  ℕ, ◌≤◌, ◌≡◌, refl, Bool, List, [], ◌∷◌, arith, leb, ◌==◌, if◌then◌else◌, Bool-cases, inl, inr,
  select, exists, All,
}

module _ {ℓ} {A : Type ℓ} where
  -- in front of the pairs with the same key, which stood behind it
  insert_by_key : ℕ × A → List (ℕ × A) → List (ℕ × A)
  insert_by_key x [] = x ∷ []
  insert_by_key x (y ∷ ys) = if leb x.0 y.0 then x ∷ y ∷ ys else y ∷ insert_by_key x ys

  unfoldable pub sorted : List (ℕ × A) → List (ℕ × A)
  unfolding insert_by_key
  sorted [] = []
  sorted (x ∷ xs) = insert_by_key x (sorted xs)

  abbrev pub key_is : ℕ → ℕ × A → Bool
  key_is k x = x.0 == k

  -- Every pair has a key that is not below the key of any pair in front of it.
  abbrev pub IsSorted : List (ℕ × A) → Type 0
  IsSorted [] = Unit
  IsSorted (x ∷ xs) = All (λ y. x.0 ≤ y.0) xs × IsSorted xs

  select-insert_by_key :
      (k : ℕ) (x : ℕ × A) (ys : List (ℕ × A))
      → select (key_is k) (insert_by_key x ys) ≡ select (key_is k) (x ∷ ys)
  unfolding insert_by_key select
  select-insert_by_key k x [] = refl
  select-insert_by_key k x (y ∷ ys) = ground (arith, select-insert_by_key k x ys)

  -- Sorting keeps the pairs of each key, in their order: nothing is lost, and it is stable.
  pub select-sorted :
      (k : ℕ) (xs : List (ℕ × A)) → select (key_is k) (sorted xs) ≡ select (key_is k) xs
  unfolding select sorted
  select-sorted k [] = refl
  select-sorted k (x ∷ xs) =
      ground (arith, select-insert_by_key k x (sorted xs), select-sorted k xs)

  All-insert_by_key {κ} :
      (P : ℕ × A → Type κ) (x : ℕ × A) (ys : List (ℕ × A))
      → P x
      → All P ys
      → All P (insert_by_key x ys)
  unfolding insert_by_key
  All-insert_by_key P x [] h a = (h, tt)
  All-insert_by_key P x (y ∷ ys) h a = elim (Bool-cases (leb x.0 y.0)) [
    | inl e ↦ rw e (h, a)
    | inr e ↦ rw e (a.0, All-insert_by_key P x ys h a.1)
  ]

  le-All : (m n : ℕ) (ys : List (ℕ × A)) → m ≤ n → All (λ y. n ≤ y.0) ys → All (λ y. m ≤ y.0) ys
  le-All m n [] h a = tt
  le-All m n (y ∷ ys) h a = (omega arith, le-All m n ys h a.1)

  insert_by_key-IsSorted :
      (x : ℕ × A) (ys : List (ℕ × A)) → IsSorted ys → IsSorted (insert_by_key x ys)
  unfolding insert_by_key
  insert_by_key-IsSorted x [] s = (tt, tt)
  insert_by_key-IsSorted x (y ∷ ys) s = elim (Bool-cases (leb x.0 y.0)) [
    | inl e ↦ rw e ((ground arith, le-All x.0 y.0 ys (ground arith) s.0), s)
    | inr e ↦ rw e (
      All-insert_by_key (λ z. y.0 ≤ z.0) x ys (ground arith) s.0,
      insert_by_key-IsSorted x ys s.1,
    )
  ]

  pub sorted-IsSorted : (xs : List (ℕ × A)) → IsSorted (sorted xs)
  unfolding sorted
  sorted-IsSorted [] = tt
  sorted-IsSorted (x ∷ xs) = insert_by_key-IsSorted x (sorted xs) (sorted-IsSorted xs)

  All-insert_by_key_inv {κ} :
      (P : ℕ × A → Type κ) (x : ℕ × A) (ys : List (ℕ × A))
      → All P (insert_by_key x ys)
      → P x × All P ys
  unfolding insert_by_key
  All-insert_by_key_inv P x [] a = a
  All-insert_by_key_inv P x (y ∷ ys) a = elim (Bool-cases (leb x.0 y.0)) [
    | inl e ↦ rw e at a
    | inr e ↦
        let b : P y × All P (insert_by_key x ys) = rw e at a in
        let (h, c) = All-insert_by_key_inv P x ys b.1 in (h, (b.0, c))
  ]

  -- What holds of all pairs of the sorted list holds of all pairs.
  pub All-sorted_inv {κ} : (P : ℕ × A → Type κ) (xs : List (ℕ × A)) → All P (sorted xs) → All P xs
  unfolding sorted
  All-sorted_inv P [] a = tt
  All-sorted_inv P (x ∷ xs) a =
      let (h, b) = All-insert_by_key_inv P x (sorted xs) a in (h, All-sorted_inv P xs b)

  pub All-sorted {κ} : (P : ℕ × A → Type κ) (xs : List (ℕ × A)) → All P xs → All P (sorted xs)
  unfolding sorted
  All-sorted P [] a = tt
  All-sorted P (x ∷ xs) a = All-insert_by_key P x (sorted xs) a.0 (All-sorted P xs a.1)

  exists-insert_by_key :
      (p : ℕ × A → Bool) (x : ℕ × A) (ys : List (ℕ × A))
      → exists p (insert_by_key x ys) ≡ exists p (x ∷ ys)
  unfolding insert_by_key exists
  exists-insert_by_key p x [] = refl
  exists-insert_by_key p x (y ∷ ys) = ground (arith, exists-insert_by_key p x ys)

  -- Sorting keeps what is there.
  pub exists-sorted : (p : ℕ × A → Bool) (xs : List (ℕ × A)) → exists p (sorted xs) ≡ exists p xs
  unfolding sorted exists
  exists-sorted p [] = refl
  exists-sorted p (x ∷ xs) =
      let k = exists-insert_by_key p x (sorted xs) in
      let e = exists-sorted p xs in ground (arith, k, e)

  -- what holds of any two pairs, the one in front first
  abbrev pub Pairwise {κ} : (ℕ × A → ℕ × A → Type κ) → List (ℕ × A) → Type κ
  Pairwise R [] = Unit
  Pairwise R (x ∷ xs) = All (R x) xs × Pairwise R xs

  Pairwise-insert_by_key {κ} :
      (R : ℕ × A → ℕ × A → Type κ) (x : ℕ × A) (ys : List (ℕ × A))
      → ((a b : ℕ × A) → R a b → R b a)
      → All (R x) ys
      → Pairwise R ys
      → Pairwise R (insert_by_key x ys)
  unfolding insert_by_key
  Pairwise-insert_by_key R x [] s a p = (tt, tt)
  Pairwise-insert_by_key R x (y ∷ ys) s a p = elim (Bool-cases (leb x.0 y.0)) [
    | inl e ↦ rw e (a, p)
    | inr e ↦
        rw e (All-insert_by_key (R y) x ys (s x y a.0) p.0, Pairwise-insert_by_key R x ys s a.1 p.1)
  ]

  -- Sorting keeps what holds of any two pairs, whichever of them stands in front.
  pub Pairwise-sorted {κ} :
      (R : ℕ × A → ℕ × A → Type κ) (xs : List (ℕ × A))
      → ((a b : ℕ × A) → R a b → R b a)
      → Pairwise R xs
      → Pairwise R (sorted xs)
  unfolding sorted
  Pairwise-sorted R [] s p = tt
  Pairwise-sorted R (x ∷ xs) s p =
      Pairwise-insert_by_key R x (sorted xs) s (All-sorted (R x) xs p.0)
        (Pairwise-sorted R xs s p.1)
