-- ===== src/Backups/Effects.antt =====
-- Rules for effects: what happened stays, and what a chain that returns has done.
use doc_chat_template_scc.Common.{
  ◌≡◌, refl, sym, ap, ◌∙◌, subst, Bool, true, false, Option, none, some, List, [], ◌∷◌, ◌++◌,
  String, if◌then◌else◌, inl, inr,
}
use doc_chat_template_scc.Common.Rows.{Elem}
use doc_chat_template_scc.Backups.Data.{
  Config, Action, Answer, Why, Backup, Event, Deps, World, Outcome, ok, problem, key_error,
  out_of_fuel, M, attempt, resume, raise, ◌>>=◌, pure, gets, key, log,
}
use doc_chat_template_scc.Backups.Resolve.{update_row, daemon_call, require_ok, clean_up}

pub Elem-append_left : {A : Type 0} (x : A) (xs ys : List A) → Elem x xs → Elem x (xs ++ ys)
Elem-append_left x (z ∷ zs) ys (inl e) = inl e
Elem-append_left x (z ∷ zs) ys (inr m) = inr (Elem-append_left x zs ys m)
Elem-append_left x [] ys m = absurd m

pub Elem-append_last : {A : Type 0} (x : A) (xs : List A) → Elem x (xs ++ x ∷ [])
Elem-append_last x [] = inl refl
Elem-append_last x (z ∷ zs) = inr (Elem-append_last x zs)

-- what had happened still has
abbrev pub Later : World → World → Type 0
Later w v = (e : Event) → Elem e w.events → Elem e v.events

pub record Grows {A : Type 0} (m : M A) : Type 0 where
  pub at : (w : World) → Later w (m w).1

module _ {A B : Type 0} where
  Later-resume :
      (r : Outcome A) (h : Why → M B) (f : A → M B) (v : World)
      → ((e : Why) → Grows (h e))
      → ((a : A) → Grows (f a))
      → Later v (resume r h f v).1
  Later-resume (ok a) h f v gh gf = (gf a).at v
  Later-resume (problem e) h f v gh gf = (gh e).at v
  Later-resume key_error h f v gh gf = λ e m. m
  Later-resume out_of_fuel h f v gh gf = λ e m. m

  pub Grows-attempt :
      (m : M A) (h : Why → M B) (f : A → M B)
      → Grows m
      → ((e : Why) → Grows (h e))
      → ((a : A) → Grows (f a))
      → Grows (attempt m h f)
  unfolding attempt
  Grows-attempt m h f gm gh gf = record {
    at = λ w e k. Later-resume (m w).0 h f (m w).1 gh gf e (gm.at w e k);
  }

  pub Grows-bind : (m : M A) (f : A → M B) → Grows m → ((a : A) → Grows (f a)) → Grows (m >>= f)
  unfolding ◌>>=◌
  Grows-bind m f gm gf = Grows-attempt m raise f gm (λ e. record { at = λ w x k. k }) gf

  resume-ok :
      (r : Outcome A) (f : A → M B) (v : World) (b : B)
      → (resume r raise f v).0 ≡ ok b
      → (a : A) × (r ≡ ok a) × (resume r raise f v ≡ f a v)
  unfolding raise
  resume-ok (ok a) f v b h = (a, refl, refl)
  resume-ok (problem e) f v b h = cc
  resume-ok key_error f v b h = cc
  resume-ok out_of_fuel f v b h = cc

  -- a chain that returns has a first part that returned
  pub >>=-ok :
      (m : M A) (f : A → M B) (w : World) (b : B)
      → ((m >>= f) w).0 ≡ ok b
      → (a : A) × ((m w).0 ≡ ok a) × ((m >>= f) w ≡ f a (m w).1)
  unfolding ◌>>=◌
  >>=-ok m f w b h = resume-ok (m w).0 f (m w).1 b h

module _ {A : Type 0} where
  pub Grows-pure : (a : A) → Grows (pure a)
  unfolding pure
  Grows-pure a = record { at = λ w e k. k }

  pub Grows-raise : (e : Why) → Grows (raise {A = A} e)
  unfolding raise
  Grows-raise e = record { at = λ w x k. k }

  pub Grows-gets : (f : World → A) → Grows (gets f)
  unfolding gets
  Grows-gets f = record { at = λ w e k. k }

  pub Grows-key : (o : Option A) → Grows (key o)
  unfolding key
  Grows-key none = record { at = λ w e k. k }
  Grows-key (some a) = record { at = λ w e k. k }

  pub Grows-if : (b : Bool) (m n : M A) → Grows m → Grows n → Grows (if b then m else n)
  Grows-if true m n gm gn = gm
  Grows-if false m n gm gn = gn

pub Grows-log : (e : Event) → Grows (log e)
unfolding log
Grows-log e = record { at = λ w x k. Elem-append_left x w.events (e ∷ []) k }

pub Grows-update_row : (id : String) (f : Backup → Backup) → Grows (update_row id f)
unfolding update_row pure
Grows-update_row id f = record { at = λ w e k. k }

pub Grows-daemon_call : (deps : Deps) (c : Config) (a : Action) → Grows (daemon_call deps c a)
unfolding daemon_call ◌>>=◌ log pure
Grows-daemon_call deps c a = record { at = λ w x k. Elem-append_left x w.events _ k }

pub Grows-require_ok : (what : String) (r : Answer) → Grows (require_ok what r)
unfolding require_ok
Grows-require_ok what r = Grows-if r.success _ _ (Grows-pure _) (Grows-raise _)

pub Grows-clean_up : (deps : Deps) (c : Option Config) (id : String) → Grows (clean_up deps c id)
unfolding clean_up
Grows-clean_up deps none id = Grows-pure tt
Grows-clean_up deps (some c) id =
    Grows-bind _ _ (Grows-daemon_call deps c (Action.cleanup id)) (λ r. Grows-pure tt)

-- What holds when an effect returns.
pub record Ensures {A : Type 0} (Q : World → Type 0) (m : M A) : Type 0 where
  pub at : (w : World) (a : A) → (m w).0 ≡ ok a → Q (m w).1

-- a statement that stays true as things happen
abbrev pub IsLasting : (World → Type 0) → Type 0
IsLasting Q = (w v : World) → Later w v → Q w → Q v

module _ {A B : Type 0} {Q : World → Type 0} where
  pub Ensures-bind : (m : M A) (f : A → M B) → ((a : A) → Ensures Q (f a)) → Ensures Q (m >>= f)
  Ensures-bind m f k = record {
    at = λ w b h.
        let (a, _, e) = >>=-ok m f w b h in
        subst (λ x. Q x.1) (sym e) ((k a).at (m w).1 b (ap (λ x. x.0) (sym e) ∙ h));
  }

  -- the first part of a chain makes it true, and what follows leaves it so
  pub Ensures-first :
      (m : M A) (f : A → M B)
      → IsLasting Q
      → Ensures Q m
      → ((a : A) → Grows (f a))
      → Ensures Q (m >>= f)
  Ensures-first m f lasting k g = record {
    at = λ w b h.
        let (a, e0, e) = >>=-ok m f w b h in
        subst (λ x. Q x.1) (sym e)
          (lasting (m w).1 (f a (m w).1).1 ((g a).at (m w).1) (k.at w a e0));
  }
