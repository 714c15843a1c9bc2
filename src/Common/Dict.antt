-- ===== src/Common/Dict.antt =====
-- Python's dictionaries with texts as keys: a list of keys with their values.
use doc_chat_template_scc.Common.{
  ◌≡◌, refl, Bool, true, not, Option, none, some, List, [], ◌∷◌, String, str_eq, eq_iff,
  if◌then◌else◌, select, Bool-cases, inl, inr,
}

module _ {A : Type 0} where
  -- `d.get(key)`
  unfoldable pub get : String → List (String × A) → Option A
  get key [] = none
  get key ((k, a) ∷ d) = if str_eq k key then some a else get key d

  -- `d[key] = a`
  unfoldable pub put : String → A → List (String × A) → List (String × A)
  put key a [] = (key, a) ∷ []
  put key a ((k, b) ∷ d) =
      let rest = put key a d in if str_eq k key then (k, a) ∷ d else (k, b) ∷ rest

  -- `del d[key]`
  unfoldable pub remove : String → List (String × A) → List (String × A)
  remove key d = select (λ e. not (str_eq e.0 key)) d

  pub get-put : (key : String) (a : A) (d : List (String × A)) → get key (put key a d) ≡ some a
  unfolding get put
  get-put key a [] = rw ((eq_iff key key).1 refl) refl
  get-put key a ((k, b) ∷ d) = elim (Bool-cases (str_eq k key)) [
    | inl e ↦ rw e (rw e refl)
    | inr e ↦ rw e (rw e (get-put key a d))
  ]

  pub get-remove : (key : String) (d : List (String × A)) → get key (remove key d) ≡ none
  unfolding get remove select
  get-remove key [] = refl
  get-remove key ((k, b) ∷ d) = elim (Bool-cases (str_eq k key)) [
    | inl e ↦ rw e (get-remove key d)
    | inr e ↦ rw e (rw e (get-remove key d))
  ]

  -- Dropping entries by a test keeps what a key is found with, when this passes the test.
  pub get-select :
      (p : String × A → Bool) (key : String) (a : A) (d : List (String × A))
      → get key d ≡ some a
      → ((k : String) → p (k, a) ≡ true)
      → get key (select p d) ≡ some a
  unfolding get select
  get-select p key a [] h keep = absurd (cc)
  get-select p key a ((k, b) ∷ d) h keep = elim (Bool-cases (str_eq k key)) [
    | inl e ↦
        let q : some b ≡ some a = rw e at h in
        let same : b ≡ a = cc in rw same (rw (keep k) (rw e refl))
    | inr e ↦
        let rest = get-select p key a d (rw e at h) keep in
        elim (Bool-cases (p (k, b))) [ inl f ↦ rw f (rw e rest) | inr f ↦ rw f rest ]
  ]

  -- What was not there is not there after entries were dropped.
  pub get-select-none :
      (p : String × A → Bool) (key : String) (d : List (String × A))
      → get key d ≡ none
      → get key (select p d) ≡ none
  unfolding get select
  get-select-none p key [] h = refl
  get-select-none p key ((k, b) ∷ d) h = elim (Bool-cases (str_eq k key)) [
    | inl e ↦ absurd (let q : some b ≡ none = rw e at h in cc)
    | inr e ↦
        let rest = get-select-none p key d (rw e at h) in
        elim (Bool-cases (p (k, b))) [ inl f ↦ rw f (rw e rest) | inr f ↦ rw f rest ]
  ]
