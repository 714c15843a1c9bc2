-- ===== src/Backups/Rows.antt =====
-- What the statements on the table of backups leave, and what leaves the table alone.
use doc_chat_template_scc.Common.{
  ◌≡◌, refl, ap, ◌∙◌, Bool, true, Option, none, some, List, [], ◌∷◌, String, str_eq, eq_iff, first,
  update, Bool-cases, inl, inr,
}
use doc_chat_template_scc.Common.Rows.{first_found}
use doc_chat_template_scc.Backups.Data.{Backup, Event, ok, Config, Deps, World, ◌>>=◌, pure, log}
use doc_chat_template_scc.Backups.Resolve.{row, update_row, clean_up, daemon_call}

abbrev pub map_option {ℓ κ} : {A : Type ℓ} {B : Type κ} → (A → B) → Option A → Option B
map_option f none = none
map_option f (some a) = some (f a)

-- An UPDATE of the rows of a SELECT, by a function that keeps them in it, updates its first row.
first-update {ℓ} :
    {A : Type ℓ} (p : A → Bool) (f : A → A) (xs : List A)
    → ((x : A) → p (f x) ≡ p x)
    → first p (update p f xs) ≡ map_option f (first p xs)
unfolding first update
first-update p f [] h = refl
first-update p f (x ∷ xs) h = elim (Bool-cases (p x)) [
  | inl e ↦ let e' : p (f x) ≡ true = h x ∙ e in rw e (rw e' refl)
  | inr e ↦ rw e (rw e (first-update p f xs h))
]

pub row-update_row :
    (id : String) (f : Backup → Backup) (w : World)
    → ((b : Backup) → (f b).id ≡ b.id)
    → row (update_row id f w).1 id ≡ map_option f (row w id)
unfolding row update_row pure
row-update_row id f w h =
    first-update (λ (b : Backup). str_eq b.id id) f w.backups (λ b. ap (λ i. str_eq i id) (h b))

-- the row that is found has the id that was looked for
pub id-row : (w : World) (id : String) (b : Backup) → row w id ≡ some b → b.id ≡ id
unfolding row
id-row w id b h = (eq_iff b.id id).0 (first_found _ w.backups b h).0

-- the call of "backup_cleanup" returns, and leaves all but the events alone
pub clean_up_lem :
    (deps : Deps) (c : Option Config) (id : String) (w : World)
    → (es : List Event) × (clean_up deps c id w ≡ (ok tt, record w { events = es }))
unfolding clean_up daemon_call pure ◌>>=◌ log
clean_up_lem deps none id w = (w.events, refl)
clean_up_lem deps (some c) id w = (_, refl)

-- the row depends on the table of backups alone
pub row_congr : (v w : World) (id : String) → v.backups ≡ w.backups → row v id ≡ row w id
unfolding row
row_congr v w id e = ap (λ bs. first (λ (b : Backup). str_eq b.id id) bs) e
