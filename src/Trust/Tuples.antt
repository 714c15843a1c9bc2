-- ===== src/Trust/Tuples.antt =====
-- The table of relation tuples under the statements that insert and revoke rows, as seen by a test
-- that only active rows pass.
use doc_chat_template_scc.Common.{
  ℕ, ◌≡◌, ◌∙◌, sym, subst, inl, inr, Bool, true, false, not, ◌&&◌, Option, List, [], ◌∷◌, arith,
  ◌==◌, ==_refl, exists, exists-update, exists_congr, select, update, Bool-cases, Bool-ext,
  and-left, is_num, and-true,
}
use doc_chat_template_scc.Common.Rows.{Elem, exists_found, exists_intro, exists-select}
use doc_chat_template_scc.Trust.Data.{Db, Tuple, invite_of, revoke, is_active}
use doc_chat_template_scc.Trust.Grants.{Grant, revoke_grant_row}
use doc_chat_template_scc.Trust.Friends.{revoke_grant_rows}
use doc_chat_template_scc.Trust.Invites.{revoke_if_tagged, revoke_tagged, of_earlier}

abbrev pub OnlyActive : (Tuple → Bool) → Type 0
OnlyActive p = (t : Tuple) → p t ≡ true → is_active t ≡ true

OnlyActive-revoke : (p : Tuple → Bool) (ts : ℕ) (t : Tuple) → OnlyActive p → p (revoke ts t) ≡ false
OnlyActive-revoke p ts t only = elim (Bool-cases (p (revoke ts t))) [
  | inl e ↦ let h = only (revoke ts t) e in cc h
  | inr e ↦ e
]

OnlyActive-and : (p q : Tuple → Bool) → OnlyActive p → OnlyActive (λ t. p t && q t)
OnlyActive-and p q only t h = only t (and-left (p t) (q t) h)

-- What a test finds when the rows that `q` meets have been revoked.
pub exists-revoke :
    (p q : Tuple → Bool) (ts : ℕ) (xs : List Tuple)
    → OnlyActive p
    → exists p (update q (revoke ts) xs) ≡ exists (λ t. p t && not (q t)) xs
exists-revoke p q ts xs only =
    exists-update p q (revoke ts) xs
    ∙ exists_congr _ _ xs λ t. elim (Bool-cases (q t)) [
      | inl e ↦ rw e (OnlyActive-revoke p ts t only ∙ sym (and_false (p t)))
      | inr e ↦ rw e (sym (and-true (p t)))
    ]
  where
    and_false : (b : Bool) → (b && false) ≡ false
    and_false b = ground arith

-- the rows that a run of `UPDATE … WHERE id = ?` over tagged rows meets
abbrev pub tagged_hit : ℕ → List Tuple → Tuple → Bool
tagged_hit i rows t = exists (λ row. is_num i (invite_of row.edge) && t.id == row.id) rows

exists-revoke_if_tagged :
    (p : Tuple → Bool) (ts i : ℕ) (row : Tuple) (db : Db)
    → OnlyActive p
    → exists p (revoke_if_tagged ts i row db).tuples
      ≡ exists (λ t. p t && not (is_num i (invite_of row.edge) && t.id == row.id)) db.tuples
unfolding revoke_if_tagged
exists-revoke_if_tagged p ts i row db only = elim (Bool-cases (is_num i (invite_of row.edge))) [
  | inl e ↦ rw e (exists-revoke p (λ t. t.id == row.id) ts db.tuples only)
  | inr e ↦ rw e (exists_congr _ _ db.tuples (λ t. sym (and-true (p t))))
]

pub exists-revoke_tagged :
    (p : Tuple → Bool) (ts i : ℕ) (rows : List Tuple) (db : Db)
    → OnlyActive p
    → exists p (revoke_tagged ts i rows db).tuples
      ≡ exists (λ t. p t && not (tagged_hit i rows t)) db.tuples
unfolding revoke_tagged exists
exists-revoke_tagged p ts i [] db only = exists_congr _ _ db.tuples (λ t. sym (and-true (p t)))
exists-revoke_tagged p ts i (row ∷ rows) db only =
    let rest : Tuple → Bool = λ t. p t && not (tagged_hit i rows t) in
    exists-revoke_tagged p ts i rows (revoke_if_tagged ts i row db) only
    ∙ exists-revoke_if_tagged rest ts i row db (OnlyActive-and p _ only)
    ∙ exists_congr _ _ db.tuples (λ t. ground arith)

-- the rows that a run of `revoke_grant_row` over grants meets
abbrev pub grant_hit : List Grant → Tuple → Bool
grant_hit gs t = exists (λ g. t.id == g.id) gs

pub exists-revoke_grant_rows :
    (p : Tuple → Bool) (ts : ℕ) (gs : List Grant) (db : Db)
    → OnlyActive p
    → exists p (revoke_grant_rows ts gs db).tuples
      ≡ exists (λ t. p t && not (grant_hit gs t)) db.tuples
unfolding revoke_grant_rows exists
exists-revoke_grant_rows p ts [] db only = exists_congr _ _ db.tuples (λ t. sym (and-true (p t)))
exists-revoke_grant_rows p ts (g ∷ gs) db only =
    let by_id : Tuple → Bool = λ t. t.id == g.id && is_active t in
    let rest : Tuple → Bool = λ t. p t && not (grant_hit gs t) in
    exists-revoke_grant_rows p ts gs (revoke_grant_row g.id ts db) only
    ∙ unfold revoke_grant_row in
      (exists-revoke rest by_id ts db.tuples (OnlyActive-and p _ only)
        ∙ exists_congr _ _ db.tuples (λ t. ground (arith, only t)))

-- No two rows have one id.
abbrev pub UniqueIds : List Tuple → Type 0
UniqueIds xs = (x y : Tuple) → Elem x xs → Elem y xs → x.id ≡ y.id → x ≡ y

-- On a row of the table, `release_invite`'s updates by id meet just what its SELECT asks for.
pub tagged_hit-select :
    (i : ℕ) (earlier : Option ℕ) (xs : List Tuple) (t : Tuple)
    → UniqueIds xs
    → Elem t xs
    → tagged_hit i (select (of_earlier earlier) xs) t
      ≡ (of_earlier earlier t && is_num i (invite_of t.edge))
tagged_hit-select i earlier xs t unique m =
    exists-select (of_earlier earlier) (λ row. is_num i (invite_of row.edge) && t.id == row.id) xs
    ∙ Bool-ext _ _
        (λ h.
          let (row, k, n) = exists_found _ xs h in
          let same : t ≡ row = unique t row m n (ground arith) in
          subst (λ z. (of_earlier earlier z && is_num i (invite_of z.edge)) ≡ true) (sym same)
            (ground arith))
        (λ h. exists_intro _ t xs m (ground (arith, ==_refl t.id)))
