-- ===== src/Conversations/Effects.antt =====
-- Which questions an effect asks of the world: one rule for each way to build an effect.
use doc_chat_template_scc.Common.{
  ◌≡◌, refl, ap, ◌∙◌, sym, Bool, true, false, List, [], ◌∷◌, ◌++◌, append_assoc, append-nil,
  if◌then◌else◌, All, All-append,
}
use doc_chat_template_scc.Conversations.Data.{Event, M, ◌>>=◌, pure, perform}

-- The events after are those before and new ones, of which each has `P`.
abbrev pub Extends : (Event → Type 0) → List Event → List Event → Type 0
Extends P w w' = (new : List Event) × (w' ≡ w ++ new) × All P new

pub record Asks {A : Type 0} (P : Event → Type 0) (m : M A) : Type 0 where
  pub at : (w : List Event) → Extends P w (m w).1

module _ {A : Type 0} {P : Event → Type 0} where
  pub Asks-pure : (a : A) → Asks P (pure a)
  unfolding pure
  Asks-pure a = record { at = λ w. ([], sym (append-nil w), tt) }

  pub Asks-perform : (e : Event) (answer : List Event → A) → P e → Asks P (perform e answer)
  unfolding perform
  Asks-perform e answer h = record { at = λ w. (e ∷ [], refl, (h, tt)) }

  pub Asks-if : (b : Bool) (m n : M A) → Asks P m → Asks P n → Asks P (if b then m else n)
  Asks-if true m n km kn = km
  Asks-if false m n km kn = kn

module _ {A B : Type 0} {P : Event → Type 0} where
  pub Asks-bind : (m : M A) (f : A → M B) → Asks P m → ((a : A) → Asks P (f a)) → Asks P (m >>= f)
  unfolding ◌>>=◌
  Asks-bind m f km kf = record {
    at = λ w.
        let (new, e, h) = km.at w in
        let (more, e', h') = (kf (m w).0).at (m w).1 in
        (
          new ++ more,
          e' ∙ ap (λ v. v ++ more) e ∙ append_assoc w new more,
          All-append P new more h h',
        );
  }
