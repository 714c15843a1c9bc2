-- ===== src/Service/Pace.antt =====
-- What the limit on attempts bounds.
use doc_chat_template_scc.Common.{
  ℕ, suc, ◌+◌, ◌-◌, ◌≤◌, leb, ltb, ◌≡◌, refl, sym, ap, subst, ◌&&◌, Bool, true, false, Option, none,
  some, List, [], ◌∷◌, ◌++◌, String, str_eq, eq_iff, if◌then◌else◌, length, select, arith, All,
  Bool-cases, inl, inr, append-nil, ltb-true, ltb-false, leb-false, select-append,
}
use doc_chat_template_scc.Service.Rates.{
  Attempts, attempts_of, set_attempts, is_recent, check_rate_limit, rate_limit, rate_window,
}

-- the attempts made so far, the latest first
abbrev pub History : Type 0
History = List (ℕ × String)

-- what an attempt leaves, refused or not
abbrev after_check : Option Attempts → Attempts → Attempts
after_check none attempts = attempts
after_check (some attempts) old = attempts

unfoldable pub attempts_after : History → Attempts
attempts_after [] = []
attempts_after ((now, ip) ∷ earlier) =
    let attempts = attempts_after earlier in after_check (check_rate_limit now ip attempts) attempts

abbrev add_accepted : Option Attempts → ℕ → List ℕ → List ℕ
add_accepted none now times = times
add_accepted (some attempts) now times = now ∷ times

-- the times at which attempts from an address were accepted
unfoldable pub accepted : String → History → List ℕ
unfolding attempts_after
accepted ip [] = []
accepted ip ((now, from) ∷ earlier) =
    let times = accepted ip earlier in
    if str_eq from ip
    then add_accepted (check_rate_limit now from (attempts_after earlier)) now times
    else times

-- The clock did not go back between two attempts.
abbrev pub IsChronological : History → Type 0
IsChronological [] = Unit
IsChronological (x ∷ xs) = All (λ y. y.0 ≤ x.0) xs × IsChronological xs

-- how many of the times are in the window that starts at a time
abbrev pub in_window : ℕ → ℕ → Bool
in_window start t = leb start t && ltb t (start + rate_window)

attempts_of-set_attempts :
    (ip : String) (times : List ℕ) (a : Attempts) → attempts_of ip (set_attempts ip times a) ≡ times
unfolding attempts_of set_attempts
attempts_of-set_attempts ip times [] = let e = (eq_iff ip ip).1 refl in rw e refl
attempts_of-set_attempts ip times ((key, old) ∷ rest) = elim (Bool-cases (str_eq key ip)) [
  | inl e ↦ rw e (rw e refl)
  | inr e ↦ rw e (rw e (attempts_of-set_attempts ip times rest))
]

attempts_of-set_others :
    (ip other : String) (times : List ℕ) (a : Attempts)
    → str_eq ip other ≡ false
    → attempts_of other (set_attempts ip times a) ≡ attempts_of other a
unfolding attempts_of set_attempts
attempts_of-set_others ip other times [] h = rw h refl
attempts_of-set_others ip other times ((key, old) ∷ rest) h = elim (Bool-cases (str_eq key ip)) [
  | inl e ↦ let k : key ≡ ip = (eq_iff key ip).0 e in rw e (rw k (rw h refl))
  | inr e ↦ elim (Bool-cases (str_eq key other)) [
    | inl f ↦ rw e (rw f refl)
    | inr f ↦ rw e (rw f (attempts_of-set_others ip other times rest h))
  ]
]

length-append_one : (xs : List ℕ) (x : ℕ) → length (xs ++ x ∷ []) ≡ suc (length xs)
length-append_one [] x = refl
length-append_one (y ∷ xs) x = ap suc (length-append_one xs x)

length-select_mono :
    (p q : ℕ → Bool) (xs : List ℕ)
    → ((t : ℕ) → p t ≡ true → q t ≡ true)
    → length (select p xs) ≤ length (select q xs)
unfolding select
length-select_mono p q [] h = omega arith
length-select_mono p q (x ∷ xs) h =
    let rest = length-select_mono p q xs h in
    elim (Bool-cases (p x)) [
      | inl e ↦ rw e (rw (h x e) (omega (arith, rest)))
      | inr e ↦ elim (Bool-cases (q x)) [
        | inl f ↦ rw e (rw f (omega (arith, rest)))
        | inr f ↦ rw e (rw f rest)
      ]
    ]

select-select_weaker :
    (p q : ℕ → Bool) (xs : List ℕ)
    → ((t : ℕ) → p t ≡ true → q t ≡ true)
    → select p (select q xs) ≡ select p xs
unfolding select
select-select_weaker p q [] h = refl
select-select_weaker p q (x ∷ xs) h =
    let rest = select-select_weaker p q xs h in
    elim (Bool-cases (p x)) [
      | inl e ↦ rw (h x e) (rw e (ap (λ ys. x ∷ ys) rest))
      | inr e ↦ elim (Bool-cases (q x)) [ inl f ↦ rw f (rw e rest) | inr f ↦ rw f (rw e rest) ]
    ]

recent_later : (now u t : ℕ) → now ≤ u → is_recent u t ≡ true → is_recent now t ≡ true
recent_later now u t h k = elim (Bool-cases (is_recent now t)) [
  | inl e ↦ e
  | inr e ↦
      let a = ltb-true (u - t) rate_window k in
      let b = ltb-false (now - t) rate_window e in absurd (omega arith)
]

window-recent :
    (start now t : ℕ)
    → in_window start now ≡ true
    → in_window start t ≡ true
    → is_recent now t ≡ true
window-recent start now t h k = ground arith

-- the counts of the accepted attempts and of those that are kept, at a time
abbrev kept : ℕ → List ℕ → ℕ
kept u times = length (select (is_recent u) times)

kept-accept :
    (u now : ℕ) (times stored : List ℕ)
    → now ≤ u
    → kept u times ≤ kept u stored
    → kept u (now ∷ times) ≤ kept u (select (is_recent now) stored ++ now ∷ [])
unfolding select
kept-accept u now times stored h k =
    rw (select-append (is_recent u) (select (is_recent now) stored) (now ∷ [])) (
      rw (select-select_weaker (is_recent u) (is_recent now) stored (λ t. recent_later now u t h))
        (elim (Bool-cases (is_recent u now)) [
          | inl e ↦
              rw e
                (let l = length-append_one (select (is_recent u) stored) now in omega (arith, k, l))
          | inr e ↦ rw e (rw (append-nil (select (is_recent u) stored)) k)
        ]))

-- What is kept of an address has all its accepted attempts that are still recent.
kept-accepted :
    (u : ℕ) (ip : String) (h : History)
    → All (λ y. y.0 ≤ u) h
    → kept u (accepted ip h) ≤ kept u (attempts_of ip (attempts_after h))
unfolding accepted attempts_after check_rate_limit
kept-accepted u ip [] a = omega arith
kept-accepted u ip ((now, from) ∷ h) (le, a) =
    let before = kept-accepted u ip h a in
    let stored = attempts_of from (attempts_after h) in
    let recent = select (is_recent now) stored in
    elim (Bool-cases (leb rate_limit (length recent))) [
      | inl full ↦ elim (Bool-cases (str_eq from ip)) [
        | inl e ↦ rw full (rw e before)
        | inr e ↦ rw full (rw e before)
      ]
      | inr free ↦ elim (Bool-cases (str_eq from ip)) [
        | inl e ↦
            let same : from ≡ ip = (eq_iff from ip).0 e in
            rw free (
              rw e (
                rw
                  (subst
                    (λ i.
                      attempts_of i (set_attempts from (recent ++ now ∷ []) (attempts_after h))
                      ≡ recent ++ now ∷ [])
                    same (attempts_of-set_attempts from (recent ++ now ∷ []) (attempts_after h)))
                  (kept-accept u now (accepted ip h) stored le (
                    subst (λ i. kept u (accepted ip h) ≤ kept u (attempts_of i (attempts_after h)))
                      (sym same) before))))
        | inr e ↦ rw free (
            rw e (
              rw (attempts_of-set_others from ip (recent ++ now ∷ []) (attempts_after h) e) before))
      ]
    ]

-- However often an address tries, no window of the limit's length has more accepted attempts than the
-- limit, as long as the clock does not go back.
pub check_rate_limit-bounds :
    (ip : String) (h : History) (start : ℕ)
    → IsChronological h
    → length (select (in_window start) (accepted ip h)) ≤ rate_limit
unfolding accepted check_rate_limit select
check_rate_limit-bounds ip [] start c = omega arith
check_rate_limit-bounds ip ((now, from) ∷ h) start (le, c) =
    let before = check_rate_limit-bounds ip h start c in
    let recent = select (is_recent now) (attempts_of from (attempts_after h)) in
    elim (Bool-cases (leb rate_limit (length recent))) [
      | inl full ↦ elim (Bool-cases (str_eq from ip)) [
        | inl e ↦ rw full (rw e before)
        | inr e ↦ rw full (rw e before)
      ]
      | inr free ↦ elim (Bool-cases (str_eq from ip)) [
        | inl e ↦
            let same : from ≡ ip = (eq_iff from ip).0 e in
            elim (Bool-cases (in_window start now)) [
              | inl here ↦
                  let room = leb-false rate_limit (length recent) free in
                  let few =
                    length-select_mono (in_window start) (is_recent now) (accepted ip h)
                      (λ t. window-recent start now t here) in
                  let all = kept-accepted now ip h le in
                  rw free (
                    rw e (
                      rw here (
                        omega (
                          arith,
                          room,
                          few,
                          subst
                              (λ i.
                                kept now (accepted ip h)
                                ≤ kept now (attempts_of i (attempts_after h)))
                              (sym same) all,
                        ))))
              | inr there ↦ rw free (rw e (rw there before))
            ]
        | inr e ↦ rw free (rw e before)
      ]
    ]
