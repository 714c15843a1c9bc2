-- ===== src/Trust/GrantRows.antt =====
-- What the queries for grants find in the table of relation tuples.
use doc_chat_template_scc.Common.{
  ℕ, ◌≡◌, refl, ap, ◌∙◌, sym, subst, inl, inr, Bool, true, false, ◌&&◌, Option, none, some, List,
  [], ◌∷◌, ◌++◌, arith, ◌==◌, ==_refl, select, Bool-cases, Option-cases,
}
use doc_chat_template_scc.Common.Rows.{Elem}
use doc_chat_template_scc.Trust.Data.{
  Db, Tuple, Edge, friend, member, grant, GrantRelation, is_active,
}
use doc_chat_template_scc.Trust.Grants.{
  Grant, grant_dict, grant_of, relation_in, add_grant, collect_grants, grants_held, grants_between,
}
use doc_chat_template_scc.Trust.Friends.{is_friend_edge}

module _ {A : Type 0} where
  pub Elem-select :
      (p : A → Bool) (x : A) (xs : List A) → Elem x (select p xs) → (p x ≡ true) × Elem x xs
  unfolding select
  Elem-select p x (y ∷ ys) m = elim (Bool-cases (p y)) [
    | inl e ↦ elim (let k : Elem x (y ∷ select p ys) = rw e at m in k) [
      | inl q ↦ (subst (λ z. p z ≡ true) (sym q) e, inl q)
      | inr n ↦ let (h, k) = Elem-select p x ys n in (h, inr k)
    ]
    | inr e ↦ let (h, k) = Elem-select p x ys (rw e at m) in (h, inr k)
  ]
  Elem-select p x [] m = absurd m

  pub select-Elem :
      (p : A → Bool) (x : A) (xs : List A) → Elem x xs → p x ≡ true → Elem x (select p xs)
  unfolding select
  select-Elem p x (y ∷ ys) (inl e) h =
      let k : p y ≡ true = subst (λ z. p z ≡ true) e h in rw k (inl e)
  select-Elem p x (y ∷ ys) (inr m) h = elim (Bool-cases (p y)) [
    | inl e ↦ rw e (inr (select-Elem p x ys m h))
    | inr e ↦ rw e (select-Elem p x ys m h)
  ]
  select-Elem p x [] m h = absurd m

  pub append-Elem_left : (x : A) (xs ys : List A) → Elem x xs → Elem x (xs ++ ys)
  append-Elem_left x (y ∷ xs) ys (inl e) = inl e
  append-Elem_left x (y ∷ xs) ys (inr m) = inr (append-Elem_left x xs ys m)
  append-Elem_left x [] ys m = absurd m

  pub append-Elem_right : (x : A) (xs ys : List A) → Elem x ys → Elem x (xs ++ ys)
  append-Elem_right x [] ys m = m
  append-Elem_right x (y ∷ xs) ys m = inr (append-Elem_right x xs ys m)

-- A grant that the queries return is the dictionary of a row that they asked for.
pub Elem-collect_grants :
    (db : Db) (w : Tuple → Bool) (rel : Option GrantRelation) (rows : List Tuple) (g : Grant)
    → Elem g (collect_grants db w rel rows)
    → (t : Tuple) × Elem t rows × (w t ≡ true) × (grant_of db rel t t.edge ≡ some g)
unfolding collect_grants
Elem-collect_grants db w rel [] g m = absurd m
Elem-collect_grants db w rel (t ∷ ts) g m = elim (Bool-cases (w t)) [
  | inl e ↦ elim (Option-cases (grant_of db rel t t.edge)) [
    | inl gone ↦
        let (u, n, k, q) = Elem-collect_grants db w rel ts g (rw (e, gone) at m) in (u, inr n, k, q)
    | inr (h, made) ↦
        elim (let k : Elem g (h ∷ collect_grants db w rel ts) = rw (e, made) at m in k) [
          | inl q ↦ (t, inl refl, e, made ∙ ap some (sym q))
          | inr n ↦ let (u, n', k, q) = Elem-collect_grants db w rel ts g n in (u, inr n', k, q)
        ]
  ]
  | inr e ↦ let (u, n, k, q) = Elem-collect_grants db w rel ts g (rw e at m) in (u, inr n, k, q)
]

pub collect_grants-Elem :
    (db : Db) (w : Tuple → Bool) (rel : Option GrantRelation) (rows : List Tuple) (g : Grant)
    (t : Tuple)
    → Elem t rows
    → w t ≡ true
    → grant_of db rel t t.edge ≡ some g
    → Elem g (collect_grants db w rel rows)
unfolding collect_grants
collect_grants-Elem db w rel (u ∷ us) g t (inl e) k q =
    let at_u : w u ≡ true = subst (λ z. w z ≡ true) e k in
    let made : grant_of db rel u u.edge ≡ some g =
      subst (λ z. grant_of db rel z z.edge ≡ some g) e q in
    rw (at_u, made) (inl refl)
collect_grants-Elem db w rel (u ∷ us) g t (inr m) k q =
    let rest = collect_grants-Elem db w rel us g t m k q in
    elim (Bool-cases (w u)) [
      | inl e ↦ rw e (add_grant-elem (grant_of db rel u u.edge) g _ rest)
      | inr e ↦ rw e rest
    ]
  where
    add_grant-elem :
        (o : Option Grant) (h : Grant) (gs : List Grant) → Elem h gs → Elem h (add_grant o gs)
    add_grant-elem none h gs n = n
    add_grant-elem (some f) h gs n = inr n
collect_grants-Elem db w rel [] g t m k q = absurd m

abbrev pub owner_is : ℕ → Edge → Bool
owner_is o (friend tag) = false
owner_is o (member tag) = false
owner_is o (grant rel attrs) = attrs.owner_user_id == o

-- an active grant of the owner `o` to the user `u`
abbrev pub grant_row : ℕ → ℕ → Tuple → Bool
grant_row u o t = t.subject_id == u && owner_is o t.edge && is_active t

-- The dictionary of a row has its id and its two parties.
pub grant_of_fields :
    (db : Db) (rel : Option GrantRelation) (t : Tuple) (e : Edge) (g : Grant)
    → grant_of db rel t e ≡ some g
    → (g.id ≡ t.id)
      × (g.grantee_user_id ≡ t.subject_id)
      × (owner_is g.owner_user_id e ≡ true)
      × (is_friend_edge e ≡ false)
unfolding grant_dict
grant_of_fields db rel t (friend tag) g h = ground arith
grant_of_fields db rel t (member tag) g h = ground arith
grant_of_fields db rel t (grant r a) g h = elim (Bool-cases (relation_in rel r)) [
  | inl e ↦
      let made : some (grant_dict db t r a) ≡ some g = rw e at h in
      (ground arith, ground arith, ground (arith, ==_refl a.owner_user_id), refl)
  | inr e ↦ ground arith
]

-- the dictionary of an edge that is a grant of `o`
grant_of_owner :
    (db : Db) (o : ℕ) (t : Tuple) (e : Edge)
    → owner_is o e ≡ true
    → (g : Grant) × (grant_of db none t e ≡ some g)
      × ((g.owner_user_id == o) ≡ true)
      × (g.id ≡ t.id)
unfolding grant_dict
grant_of_owner db o t (friend tag) h = ground arith
grant_of_owner db o t (member tag) h = ground arith
grant_of_owner db o t (grant r a) h = (grant_dict db t r a, refl, h, refl)

-- Every row that is an active grant between two users is among `grants_between`.
pub grants_between-Elem :
    (db : Db) (u o : ℕ) (t : Tuple)
    → Elem t db.tuples
    → grant_row u o t ≡ true
    → (g : Grant) × Elem g (grants_between db u o) × (g.id ≡ t.id)
unfolding grants_between grants_held
grants_between-Elem db u o t m h =
    let (g, made, own, same) = grant_of_owner db o t t.edge (ground arith) in
    (
      g,
      select-Elem _ g _ (collect_grants-Elem db _ none db.tuples g t m (ground arith) made) own,
      same,
    )

-- A member of `grants_between` is the dictionary of such a row.
pub Elem-grants_between :
    (db : Db) (u o : ℕ) (g : Grant)
    → Elem g (grants_between db u o)
    → (t : Tuple) × Elem t db.tuples × (g.id ≡ t.id) × (grant_row u o t ≡ true)
unfolding grants_between grants_held
Elem-grants_between db u o g m =
    let (own, n) = Elem-select _ g _ m in
    let (t, k, w, made) = Elem-collect_grants db _ none db.tuples g n in
    let (same, who, owner, _) = grant_of_fields db none t t.edge g made in
    (
      t,
      k,
      same,
      let q : g.owner_user_id ≡ o = ground arith in
          let theirs : owner_is o t.edge ≡ true = subst (λ z. owner_is z t.edge ≡ true) q owner in
          ground arith,
    )
