-- ===== src/Trust/Keys.antt =====
-- The ids of the relation tuples: each statement keeps them unique, and below the sequence.
use doc_chat_template_scc.Common.{
  ℕ, suc, ◌≤◌, ◌≡◌, refl, ap, ◌∙◌, sym, ◌⊎◌, inl, inr, Bool, true, false, List, [], ◌∷◌, ◌++◌,
  arith, if◌then◌else◌, update, Bool-cases, is_num, All, All-append, All-update, All-mono,
}
use doc_chat_template_scc.Common.Rows.{Elem, Elem-append, Elem-update, All_elem}
use doc_chat_template_scc.Trust.Data.{Db, Tuple, Edge, invite_of, insert_tuple, revoke}
use doc_chat_template_scc.Trust.Grants.{Grant, revoke_grant_row}
use doc_chat_template_scc.Trust.Friends.{end_friendship, leave_groups, revoke_grant_rows}
use doc_chat_template_scc.Trust.Invites.{revoke_if_tagged, revoke_tagged}
use doc_chat_template_scc.Trust.Tuples.{UniqueIds}

pub record HasKeys (seq : ℕ) (xs : List Tuple) : Type 0 where
  pub below : All (λ t. t.id ≤ seq) xs
  pub unique : UniqueIds xs

id-revoke : (b : Bool) (ts : ℕ) (t : Tuple) → (if b then revoke ts t else t).id ≡ t.id
id-revoke true ts t = refl
id-revoke false ts t = refl

UniqueIds-update :
    (q : Tuple → Bool) (ts : ℕ) (xs : List Tuple)
    → UniqueIds xs
    → UniqueIds (update q (revoke ts) xs)
UniqueIds-update q ts xs unique x y mx my e =
    let (x0, nx, ex) = Elem-update q (revoke ts) x xs mx in
    let (y0, ny, ey) = Elem-update q (revoke ts) y xs my in
    let same : x0 ≡ y0 = unique x0 y0 nx ny (
      sym (id-revoke (q x0) ts x0)
      ∙ sym (ap (λ z. z.id) ex)
      ∙ e
      ∙ ap (λ z. z.id) ey
      ∙ id-revoke (q y0) ts y0) in
    ex ∙ ap (λ z. if q z then revoke ts z else z) same ∙ sym ey

pub HasKeys-update :
    (seq : ℕ) (q : Tuple → Bool) (ts : ℕ) (xs : List Tuple)
    → HasKeys seq xs
    → HasKeys seq (update q (revoke ts) xs)
HasKeys-update seq q ts xs k = record {
  below = All-update (λ t. t.id ≤ seq) q (revoke ts) xs (λ t h. h) k.below;
  unique = UniqueIds-update q ts xs k.unique;
}

abbrev pub Keyed : Db → Type 0
Keyed db = HasKeys db.tuple_seq db.tuples

-- in a table with one more row, the rows are the old ones and the new one
Elem-snoc : (x new : Tuple) (xs : List Tuple) → Elem x (xs ++ new ∷ []) → Elem x xs ⊎ (x ≡ new)
Elem-snoc x new xs m = elim (Elem-append x xs (new ∷ []) m) [
  | inl n ↦ inl n
  | inr n ↦ elim n [ inl e ↦ inr e | inr z ↦ absurd z ]
]

UniqueIds-snoc :
    (n : ℕ) (xs : List Tuple) (new : Tuple)
    → All (λ t. t.id ≤ n) xs
    → UniqueIds xs
    → new.id ≡ suc n
    → UniqueIds (xs ++ new ∷ [])
UniqueIds-snoc n xs new below unique e x y mx my same = elim (Elem-snoc x new xs mx) [
  | inl nx ↦ elim (Elem-snoc y new xs my) [
    | inl ny ↦ unique x y nx ny same
    | inr ey ↦
        let bound : x.id ≤ n = All_elem (λ t. t.id ≤ n) x xs below nx in
        let at_new : y.id ≡ new.id = ap (λ z. z.id) ey in absurd (omega arith)
  ]
  | inr ex ↦ elim (Elem-snoc y new xs my) [
    | inl ny ↦
        let bound : y.id ≤ n = All_elem (λ t. t.id ≤ n) y xs below ny in
        let at_new : x.id ≡ new.id = ap (λ z. z.id) ex in absurd (omega arith)
    | inr ey ↦ ex ∙ sym ey
  ]
]

pub insert_tuple-Keyed :
    (now s : ℕ) (e : Edge) (o : ℕ) (db : Db) → Keyed db → Keyed (insert_tuple now s e o db)
insert_tuple-Keyed now s e o db k = record {
  below =
      All-append (λ t. t.id ≤ suc db.tuple_seq) db.tuples _
        (All-mono (λ t. t.id ≤ db.tuple_seq) (λ t. t.id ≤ suc db.tuple_seq) db.tuples
          (λ t h. omega arith) k.below)
        (omega arith);
  unique = UniqueIds-snoc db.tuple_seq db.tuples _ k.below k.unique refl;
}

pub end_friendship-Keyed : (ts u v : ℕ) (db : Db) → Keyed db → Keyed (end_friendship ts u v db)
unfolding end_friendship
end_friendship-Keyed ts u v db k = HasKeys-update db.tuple_seq _ ts db.tuples k

pub leave_groups-Keyed : (ts u v : ℕ) (db : Db) → Keyed db → Keyed (leave_groups ts u v db)
unfolding leave_groups
leave_groups-Keyed ts u v db k = HasKeys-update db.tuple_seq _ ts db.tuples k

pub revoke_grant_row-Keyed : (id ts : ℕ) (db : Db) → Keyed db → Keyed (revoke_grant_row id ts db)
unfolding revoke_grant_row
revoke_grant_row-Keyed id ts db k = HasKeys-update db.tuple_seq _ ts db.tuples k

pub revoke_grant_rows-Keyed :
    (ts : ℕ) (gs : List Grant) (db : Db) → Keyed db → Keyed (revoke_grant_rows ts gs db)
unfolding revoke_grant_rows
revoke_grant_rows-Keyed ts [] db k = k
revoke_grant_rows-Keyed ts (g ∷ gs) db k =
    revoke_grant_rows-Keyed ts gs (revoke_grant_row g.id ts db)
      (revoke_grant_row-Keyed g.id ts db k)

revoke_if_tagged-Keyed :
    (ts i : ℕ) (row : Tuple) (db : Db) → Keyed db → Keyed (revoke_if_tagged ts i row db)
unfolding revoke_if_tagged
revoke_if_tagged-Keyed ts i row db k = elim (Bool-cases (is_num i (invite_of row.edge))) [
  | inl e ↦ rw e (HasKeys-update db.tuple_seq _ ts db.tuples k)
  | inr e ↦ rw e k
]

pub revoke_tagged-Keyed :
    (ts i : ℕ) (rows : List Tuple) (db : Db) → Keyed db → Keyed (revoke_tagged ts i rows db)
unfolding revoke_tagged
revoke_tagged-Keyed ts i [] db k = k
revoke_tagged-Keyed ts i (row ∷ rows) db k =
    revoke_tagged-Keyed ts i rows (revoke_if_tagged ts i row db)
      (revoke_if_tagged-Keyed ts i row db k)
