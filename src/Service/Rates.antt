-- ===== src/Service/Rates.antt =====
-- casper_service/main.py: the limit on attempts, a sliding window for each address.
-- Times are whole seconds.
use doc_chat_template_scc.Common.{
  ℕ, ◌-◌, leb, ltb, Bool, Option, none, some, List, [], ◌∷◌, ◌++◌, String, str_eq, if◌then◌else◌,
  length, select,
}

abbrev pub rate_limit : ℕ
rate_limit = 10

abbrev pub rate_window : ℕ
rate_window = 60

-- `_attempts`: the times of the attempts of each address
abbrev pub Attempts : Type 0
Attempts = List (String × List ℕ)

-- `_attempts.get(ip, [])`
unfoldable pub attempts_of : String → Attempts → List ℕ
attempts_of ip [] = []
attempts_of ip ((key, times) ∷ rest) = if str_eq key ip then times else attempts_of ip rest

-- `_attempts[ip] = times`
unfoldable pub set_attempts : String → List ℕ → Attempts → Attempts
set_attempts ip times [] = (ip, times) ∷ []
set_attempts ip times ((key, old) ∷ rest) =
    let others = set_attempts ip times rest in
    if str_eq key ip then (key, times) ∷ rest else (key, old) ∷ others

-- `now - t < RATE_WINDOW`, which also holds of a time that is still to come
abbrev pub is_recent : ℕ → ℕ → Bool
is_recent now t = ltb (now - t) rate_window

-- `check_rate_limit`: `none` where it raises 429, and the attempts stay
unfoldable pub check_rate_limit : ℕ → String → Attempts → Option Attempts
unfolding attempts_of set_attempts
check_rate_limit now ip attempts =
    let recent = select (is_recent now) (attempts_of ip attempts) in
    if leb rate_limit (length recent)
    then none
    else some (set_attempts ip (recent ++ now ∷ []) attempts)
