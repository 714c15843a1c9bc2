-- ===== src/Backups/Runs.antt =====
-- That effects end: rules for running them one after the other.
use doc_chat_template_scc.Common.{
  ◌≡◌, refl, Bool, true, false, Option, none, some, String, if◌then◌else◌,
}
use doc_chat_template_scc.Backups.Data.{
  Config, Answer, Why, Backup, Event, World, Outcome, ok, problem, key_error, out_of_fuel, M,
  resume, attempt, ◌>>=◌, pure, raise, gets, key, log,
}
use doc_chat_template_scc.Backups.Resolve.{update_row, require_ok}
use doc_chat_template_scc.Backups.Transfer.{online}

-- the rounds that the model allows are not used up
abbrev pub Ends : {A : Type 0} → Outcome A → Type 0
Ends r = ¬ (r ≡ out_of_fuel)

-- An effect that ends wherever it starts.
pub record Runs {A : Type 0} (m : M A) : Type 0 where
  pub at : (w : World) → Ends (m w).0

module _ {A : Type 0} where
  pub Ends-ok : (a : A) → Ends (ok a)
  Ends-ok a h = absurd (cc)

  pub Ends-problem : (e : Why) → Ends {A = A} (problem e)
  Ends-problem e h = absurd (cc)

  pub Ends-key_error : Ends {A = A} key_error
  Ends-key_error h = absurd (cc)

  pub Runs-pure : (a : A) → Runs (pure a)
  unfolding pure
  Runs-pure a = record { at = λ w. Ends-ok a }

  pub Runs-raise : (e : Why) → Runs (raise {A = A} e)
  unfolding raise
  Runs-raise e = record { at = λ w. Ends-problem e }

  pub Runs-gets : (f : World → A) → Runs (gets f)
  unfolding gets
  Runs-gets f = record { at = λ w. Ends-ok (f w) }

  pub Runs-key : (o : Option A) → Runs (key o)
  unfolding key
  Runs-key none = record { at = λ w. Ends-key_error }
  Runs-key (some a) = record { at = λ w. Ends-ok a }

  pub Runs-if : (b : Bool) (m n : M A) → Runs m → Runs n → Runs (if b then m else n)
  Runs-if true m n k l = k
  Runs-if false m n k l = l

pub Runs-log : (e : Event) → Runs (log e)
unfolding log
Runs-log e = record { at = λ w. Ends-ok tt }

module _ {A B : Type 0} where
  pub Ends-resume :
      (r : Outcome A) (h : Why → M B) (f : A → M B) (v : World)
      → Ends r
      → ((e : Why) → Runs (h e))
      → ((a : A) → Runs (f a))
      → Ends (resume r h f v).0
  Ends-resume (ok a) h f v k kh kf = (kf a).at v
  Ends-resume (problem e) h f v k kh kf = (kh e).at v
  Ends-resume key_error h f v k kh kf = Ends-key_error
  Ends-resume out_of_fuel h f v k kh kf = absurd (k refl)

  pub Ends-bind :
      (m : M A) (f : A → M B) (w : World)
      → Ends (m w).0
      → ((a : A) → Runs (f a))
      → Ends ((m >>= f) w).0
  unfolding ◌>>=◌
  Ends-bind m f w k l = Ends-resume (m w).0 raise f (m w).1 k Runs-raise l

  pub Runs-bind : (m : M A) (f : A → M B) → Runs m → ((a : A) → Runs (f a)) → Runs (m >>= f)
  Runs-bind m f k l = record { at = λ w. Ends-bind m f w (k.at w) l }

  pub Runs-attempt :
      (m : M A) (h : Why → M B) (f : A → M B)
      → Runs m
      → ((e : Why) → Runs (h e))
      → ((a : A) → Runs (f a))
      → Runs (attempt m h f)
  unfolding attempt
  Runs-attempt m h f k kh kf = record { at = λ w. Ends-resume (m w).0 h f (m w).1 (k.at w) kh kf }

pub Runs-update_row : (id : String) (f : Backup → Backup) → Runs (update_row id f)
unfolding update_row pure
Runs-update_row id f = record { at = λ w. Ends-ok tt }

pub Runs-require_ok : (what : String) (r : Answer) → Runs (require_ok what r)
unfolding require_ok
Runs-require_ok what r = Runs-if r.success _ _ (Runs-pure _) (Runs-raise _)

pub Runs-online : (c : Option Config) (e : Why) → Runs (online c e)
Runs-online none e = Runs-raise e
Runs-online (some c) e = Runs-pure c
