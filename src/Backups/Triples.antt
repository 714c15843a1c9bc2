-- ===== src/Backups/Triples.antt =====
-- Rules for what an effect makes of what held before it.
use doc_chat_template_scc.Common.{
  ◌≡◌, refl, sym, ap, ◌∙◌, subst, ◌⊎◌, Bool, true, false, Option, none, some, String, if◌then◌else◌,
  inl, inr,
}
use doc_chat_template_scc.Backups.Data.{
  Config, Action, Answer, Why, Event, Deps, World, Outcome, ok, problem, key_error, out_of_fuel, M,
  resume, attempt, raise, ◌>>=◌, pure, gets, key, log,
}
use doc_chat_template_scc.Backups.Resolve.{daemon_call, require_ok, clean_up}
use doc_chat_template_scc.Backups.Effects.{>>=-ok, Later, Grows, IsLasting}
use doc_chat_template_scc.Backups.Rows.{clean_up_lem}

-- If `R` holds before and the effect returns, `Q` holds of its value and after it.
pub record Triple {A : Type 0} (R : World → Type 0) (m : M A) (Q : A → World → Type 0)
    : Type 0 where
  pub at : (w : World) (a : A) → R w → (m w).0 ≡ ok a → Q a (m w).1

module _ {A B : Type 0} {R : World → Type 0} {S : A → World → Type 0} {Q : B → World → Type 0} where
  pub Triple-bind :
      (m : M A) (f : A → M B)
      → Triple R m S
      → ((a : A) → Triple (S a) (f a) Q)
      → Triple R (m >>= f) Q
  Triple-bind m f k l = record {
    at = λ w b r h.
        let (a, e0, e) = >>=-ok m f w b h in
        subst (λ x. Q b x.1) (sym e)
          ((l a).at (m w).1 b (k.at w a r e0) (ap (λ x. x.0) (sym e) ∙ h));
  }

-- An effect that changes the events alone.
pub record Rests {A : Type 0} (m : M A) : Type 0 where
  pub at : (w : World) → (m w).1.backups ≡ w.backups

module _ {A B : Type 0} where
  backups-resume :
      (r : Outcome A) (h : Why → M B) (f : A → M B) (v : World)
      → ((e : Why) → Rests (h e))
      → ((a : A) → Rests (f a))
      → (resume r h f v).1.backups ≡ v.backups
  backups-resume (ok a) h f v gh gf = (gf a).at v
  backups-resume (problem e) h f v gh gf = (gh e).at v
  backups-resume key_error h f v gh gf = refl
  backups-resume out_of_fuel h f v gh gf = refl

  pub Rests-bind : (m : M A) (f : A → M B) → Rests m → ((a : A) → Rests (f a)) → Rests (m >>= f)
  unfolding ◌>>=◌
  Rests-bind m f k l = record {
    at = λ w. backups-resume (m w).0 raise f (m w).1 (λ e. record { at = λ v. refl }) l ∙ k.at w;
  }

module _ {A : Type 0} where
  pub Rests-pure : (a : A) → Rests (pure a)
  unfolding pure
  Rests-pure a = record { at = λ w. refl }

  pub Rests-raise : (e : Why) → Rests (raise {A = A} e)
  unfolding raise
  Rests-raise e = record { at = λ w. refl }

  pub Rests-gets : (f : World → A) → Rests (gets f)
  unfolding gets
  Rests-gets f = record { at = λ w. refl }

  pub Rests-key : (o : Option A) → Rests (key o)
  unfolding key
  Rests-key none = record { at = λ w. refl }
  Rests-key (some a) = record { at = λ w. refl }

  pub Rests-if : (b : Bool) (m n : M A) → Rests m → Rests n → Rests (if b then m else n)
  Rests-if true m n gm gn = gm
  Rests-if false m n gm gn = gn

pub Rests-log : (e : Event) → Rests (log e)
unfolding log
Rests-log e = record { at = λ w. refl }

pub Rests-daemon_call : (deps : Deps) (c : Config) (a : Action) → Rests (daemon_call deps c a)
unfolding daemon_call ◌>>=◌ log pure
Rests-daemon_call deps c a = record { at = λ w. refl }

pub Rests-require_ok : (what : String) (r : Answer) → Rests (require_ok what r)
unfolding require_ok
Rests-require_ok what r = Rests-if r.success _ _ (Rests-pure _) (Rests-raise _)

pub Rests-clean_up : (deps : Deps) (c : Option Config) (id : String) → Rests (clean_up deps c id)
Rests-clean_up deps c id = record {
  at = λ w. let (es, e) = clean_up_lem deps c id w in ap (λ x. x.1.backups) e;
}

-- a statement on the table alone, and one that events and calls leave true
abbrev pub IsOfRows : (World → Type 0) → Type 0
IsOfRows R = (v w : World) → w.backups ≡ v.backups → R v → R w

abbrev pub IsSteady : (World → Type 0) → Type 0
IsSteady R = (v w : World) → w.backups ≡ v.backups → Later v w → R v → R w

module _ {A : Type 0} {R : World → Type 0} where
  pub Triple-Rests : (m : M A) → IsOfRows R → Rests m → Triple R m (λ a. R)
  Triple-Rests m s k = record { at = λ w a r h. s w (m w).1 (k.at w) r }

  pub Triple-steady : (m : M A) → IsSteady R → Rests m → Grows m → Triple R m (λ a. R)
  Triple-steady m s k g = record { at = λ w a r h. s w (m w).1 (k.at w) (g.at w) r }

  -- an effect keeps what stays true as things happen
  pub Triple-Grows : (m : M A) → IsLasting R → Grows m → Triple R m (λ a. R)
  Triple-Grows m s g = record { at = λ w a r h. s w (m w).1 (g.at w) r }

  pub Triple-raise : (e : Why) (Q : A → World → Type 0) → Triple R (raise e) Q
  unfolding raise
  Triple-raise e Q = record { at = λ w a r h. absurd (cc) }

  pub Triple-if :
      (b : Bool) (m n : M A) {Q : A → World → Type 0}
      → Triple R m Q
      → Triple R n Q
      → Triple R (if b then m else n) Q
  Triple-if true m n k l = k
  Triple-if false m n k l = l

-- What an effect keeps, however it ends.
pub record Keeps {A : Type 0} (R : World → Type 0) (m : M A) : Type 0 where
  pub at : (w : World) → R w → R (m w).1

module _ {A B : Type 0} {R : World → Type 0} where
  keeps-resume :
      (r : Outcome A) (f : A → M B) (v : World)
      → ((a : A) → Keeps R (f a))
      → R v
      → R (resume r raise f v).1
  unfolding raise
  keeps-resume (ok a) f v k h = (k a).at v h
  keeps-resume (problem e) f v k h = h
  keeps-resume key_error f v k h = h
  keeps-resume out_of_fuel f v k h = h

  pub Keeps-bind :
      (m : M A) (f : A → M B) → Keeps R m → ((a : A) → Keeps R (f a)) → Keeps R (m >>= f)
  unfolding ◌>>=◌
  Keeps-bind m f k l = record { at = λ w h. keeps-resume (m w).0 f (m w).1 l (k.at w h) }

module _ {A : Type 0} {R : World → Type 0} where
  pub Keeps-Rests : (m : M A) → IsOfRows R → Rests m → Keeps R m
  Keeps-Rests m s k = record { at = λ w h. s w (m w).1 (k.at w) h }

  pub Keeps-if : (b : Bool) (m n : M A) → Keeps R m → Keeps R n → Keeps R (if b then m else n)
  Keeps-if true m n k l = k
  Keeps-if false m n k l = l

-- `try: m except BackupError: handler`
module _ {R : World → Type 0} {Q S : Unit → World → Type 0} where
  ends-resume :
      (m : M Unit) (h : Why → M Unit) (w : World) (r : Outcome Unit) (u : Unit)
      → Triple R m Q
      → Keeps R m
      → ((e : Why) → Triple R (h e) S)
      → R w
      → (m w).0 ≡ r
      → (resume r h pure (m w).1).0 ≡ ok u
      → Q u (resume r h pure (m w).1).1 ⊎ S u (resume r h pure (m w).1).1
  unfolding pure
  ends-resume m h w (ok a) u good keeps bad before e returned = inl (good.at w u before e)
  ends-resume m h w (problem x) u good keeps bad before e returned =
      inr ((bad x).at (m w).1 u (keeps.at w before) returned)
  ends-resume m h w key_error u good keeps bad before e returned = absurd (cc)
  ends-resume m h w out_of_fuel u good keeps bad before e returned = absurd (cc)

  pub Triple-attempt :
      (m : M Unit) (h : Why → M Unit)
      → Triple R m Q
      → Keeps R m
      → ((e : Why) → Triple R (h e) S)
      → Triple R (attempt m h pure) (λ u w. Q u w ⊎ S u w)
  unfolding attempt
  Triple-attempt m h good keeps bad = record {
    at = λ w u before returned. ends-resume m h w (m w).0 u good keeps bad before refl returned;
  }
