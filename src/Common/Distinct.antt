-- ===== src/Common/Distinct.antt =====
-- Lists of numbers without repetitions, and the pigeonhole principle on them.
use doc_chat_template_scc.Common.{
  ℕ, suc, ◌≤◌, ◌≡◌, refl, sym, ap, ◌∙◌, subst, Bool, true, false, not, ◌||◌, List, [], ◌∷◌, ◌==◌,
  ==_iff, ==_refl, length, select, exists, arith, Bool-cases, inl, inr,
}

-- `id in ids`
abbrev pub contains : List ℕ → ℕ → Bool
contains ids id = exists (λ i. i == id) ids

abbrev pub Distinct : List ℕ → Type 0
Distinct [] = Unit
Distinct (x ∷ xs) = (contains xs x ≡ false) × Distinct xs

abbrev pub IsWithin : List ℕ → List ℕ → Type 0
IsWithin xs ys = (z : ℕ) → contains xs z ≡ true → contains ys z ≡ true

-- the list without a number
abbrev without : ℕ → List ℕ → List ℕ
without i xs = select (λ x. not (x == i)) xs

contains-without : (i z : ℕ) (xs : List ℕ) → contains (without i xs) z ≡ true → contains xs z ≡ true
unfolding select exists
contains-without i z [] h = h
contains-without i z (x ∷ xs) h = elim (Bool-cases (x == i)) [
  | inl e ↦
      let k : contains (without i xs) z ≡ true = rw e at h in
      let r = contains-without i z xs k in ground (arith, r)
  | inr e ↦
      let k : ((x == z) || contains (without i xs) z) ≡ true = rw e at h in
      elim (Bool-cases (x == z)) [
        | inl f ↦ rw f refl
        | inr f ↦ let r = contains-without i z xs (rw f at k) in ground (arith, r)
      ]
]

contains-without_self : (i : ℕ) (xs : List ℕ) → contains (without i xs) i ≡ false
unfolding select exists
contains-without_self i [] = refl
contains-without_self i (x ∷ xs) = elim (Bool-cases (x == i)) [
  | inl e ↦ rw e (contains-without_self i xs)
  | inr e ↦ rw e (rw e (contains-without_self i xs))
]

false_of : (b c : Bool) → (b ≡ true → c ≡ true) → c ≡ false → b ≡ false
false_of true c f h = absurd (let k = f refl in cc)
false_of false c f h = refl

Distinct-without : (i : ℕ) (xs : List ℕ) → Distinct xs → Distinct (without i xs)
unfolding select
Distinct-without i [] d = tt
Distinct-without i (x ∷ xs) (n, d) = elim (Bool-cases (x == i)) [
  | inl e ↦ rw e (Distinct-without i xs d)
  | inr e ↦ rw e (
    false_of (contains (without i xs) x) (contains xs x) (contains-without i x xs) n,
    Distinct-without i xs d,
  )
]

without-absent : (i : ℕ) (xs : List ℕ) → contains xs i ≡ false → without i xs ≡ xs
unfolding select exists
without-absent i [] h = refl
without-absent i (x ∷ xs) h = elim (Bool-cases (x == i)) [
  | inl e ↦ absurd (let k : true ≡ false = rw e at h in cc)
  | inr e ↦ rw e (ap (λ ys. x ∷ ys) (without-absent i xs (rw e at h)))
]

length-without : (i : ℕ) (xs : List ℕ) → Distinct xs → length xs ≤ suc (length (without i xs))
unfolding select
length-without i [] d = omega arith
length-without i (x ∷ xs) (n, d) = elim (Bool-cases (x == i)) [
  | inl e ↦
      let same : x ≡ i = (==_iff x i).0 e in
      let k = without-absent i xs (subst (λ j. contains xs j ≡ false) same n) in
      rw e (rw k (omega arith))
  | inr e ↦ rw e (let r = length-without i xs d in omega (arith, r))
]

without-IsWithin : (i : ℕ) (xs ys : List ℕ) → IsWithin xs (i ∷ ys) → IsWithin (without i xs) ys
unfolding exists
without-IsWithin i xs ys w z h = elim (Bool-cases (i == z)) [
  | inl e ↦
      let same : i ≡ z = (==_iff i z).0 e in
      let k = contains-without_self i xs in
      absurd (
        let q : contains (without i xs) i ≡ true =
          subst (λ j. contains (without i xs) j ≡ true) (sym same) h in
        let t : true ≡ false = sym q ∙ k in cc)
  | inr e ↦ let k = w z (contains-without i z xs h) in rw e at k
]

-- Distinct numbers of a list are no more than the list is long.
pub length-IsWithin : (xs ys : List ℕ) → Distinct xs → IsWithin xs ys → length xs ≤ length ys
unfolding exists
length-IsWithin [] [] d w = omega arith
length-IsWithin (x ∷ xs) [] d w = absurd (let k = w x (let e = ==_refl x in rw e refl) in cc)
length-IsWithin xs (y ∷ ys) d w =
    let a = length-without y xs d in
    let b =
      length-IsWithin (without y xs) ys (Distinct-without y xs d) (without-IsWithin y xs ys w) in
    omega (arith, a, b)

-- A list that has all of as many distinct numbers as it is long has no repetition.
pub Distinct-of_within :
    (xs ys : List ℕ) → Distinct xs → IsWithin xs ys → length ys ≤ length xs → Distinct ys
unfolding exists
Distinct-of_within xs [] d w l = tt
Distinct-of_within xs (y ∷ ys) d w l =
    let a = length-without y xs d in
    (
      elim (Bool-cases (contains ys y)) [
        | inl e ↦
            let shorter : IsWithin xs ys = λ z h. tail_has z (w z h) e in
            absurd (let b = length-IsWithin xs ys d shorter in omega (arith, b, l))
        | inr e ↦ e
      ],
      Distinct-of_within (without y xs) ys (Distinct-without y xs d) (without-IsWithin y xs ys w)
          (omega (arith, a, l)),
    )
  where
    tail_has : (z : ℕ) → contains (y ∷ ys) z ≡ true → contains ys y ≡ true → contains ys z ≡ true
    tail_has z h e = elim (Bool-cases (y == z)) [
      | inl k ↦ subst (λ j. contains ys j ≡ true) ((==_iff y z).0 k) e
      | inr k ↦ rw k at h
    ]

-- Of two lists that ascend by a measure, with the same numbers in them, there is one.
module _ (f : ℕ → ℕ) where
  abbrev pub IsAscending : List ℕ → Type 0
  IsAscending [] = Unit
  IsAscending (x ∷ xs) = ((z : ℕ) → contains xs z ≡ true → suc (f x) ≤ f z) × IsAscending xs

  smaller_tail :
      (x : ℕ) (xs ys : List ℕ) → IsAscending (x ∷ xs) → IsWithin (x ∷ xs) (x ∷ ys) → IsWithin xs ys
  unfolding exists
  smaller_tail x xs ys (low, a) w z h = elim (Bool-cases (x == z)) [
    | inl e ↦
        let same : x ≡ z = (==_iff x z).0 e in
        absurd (let l = low z h in let q : f x ≡ f z = ap f same in omega (arith, l, q))
    | inr e ↦ let k = w z (let t = h in rw t (ground arith)) in rw e at k
  ]

  pub ascending_is_unique :
      (xs ys : List ℕ) → IsAscending xs → IsAscending ys → IsWithin xs ys → IsWithin ys xs → xs ≡ ys
  unfolding exists
  ascending_is_unique [] [] a b w v = refl
  ascending_is_unique [] (y ∷ ys) a b w v =
      absurd (let k = v y (let e = ==_refl y in rw e refl) in cc)
  ascending_is_unique (x ∷ xs) [] a b w v =
      absurd (let k = w x (let e = ==_refl x in rw e refl) in cc)
  ascending_is_unique (x ∷ xs) (y ∷ ys) a b w v = elim (Bool-cases (x == y)) [
    | inl e ↦
        let same : x ≡ y = (==_iff x y).0 e in
        let w' : IsWithin (x ∷ xs) (x ∷ ys) =
          subst (λ q. IsWithin (x ∷ xs) (q ∷ ys)) (sym same) w in
        let v' : IsWithin (x ∷ ys) (x ∷ xs) =
          subst (λ q. IsWithin (q ∷ ys) (x ∷ xs)) (sym same) v in
        let b' : IsAscending (x ∷ ys) = subst (λ q. IsAscending (q ∷ ys)) (sym same) b in
        let rest =
          ascending_is_unique xs ys a.1 b.1 (smaller_tail x xs ys a w')
            (smaller_tail x ys xs b' v') in
        rw same (ap (λ zs. y ∷ zs) rest)
    | inr e ↦
        let e' : (y == x) ≡ false = ground arith in
        let k : ((x == y) || contains xs y) ≡ true = v y (rw (==_refl y) refl) in
        let j : ((y == x) || contains ys x) ≡ true = w x (rw (==_refl x) refl) in
        let l = a.0 y (rw e at k) in let m = b.0 x (rw e' at j) in absurd (omega (arith, l, m))
  ]
