-- ===== src/Trust/Groups.antt =====
-- Groups: the functions of casper_service/trust.py on groups, behind its heading "Invites".
-- `squeeze` stands for `" ".join(name.split())`.
use doc_chat_template_scc.Common.{
  ℕ, suc, Bool, false, not, ◌&&◌, Option, none, some, List, [], ◌∷◌, ◌++◌, map, String,
  if◌then◌else◌, ◌==◌, leb, length, codes, nocase_eq, select, first,
}
use doc_chat_template_scc.Trust.Data.{
  Db, Tuple, friend, member, grant, Group, User, bad_group_name, Action, ◌>>=◌, ◌>>◌, gets,
  raise_if, is_active,
}

abbrev pub is_member_row : Tuple → Bool
is_member_row t = elim t.edge [
  | friend tag ↦ false
  | member tag ↦ is_active t
  | grant relation attrs ↦ false
]

abbrev pub insert_group : ℕ → String → Db → Db
insert_group owner text db = record db {
  groups = db.groups ++ (record { id = suc db.group_seq; owner_user_id = owner; name = text }) ∷ [];
  group_seq = suc db.group_seq;
}

-- the last two statements of `group_named`: the group that is there, or a new one
unfoldable pub find_or_insert : ℕ → String → Option Group → Db → ℕ × Db
find_or_insert owner text none db = (suc db.group_seq, insert_group owner text db)
find_or_insert owner text (some g) db = (g.id, db)

abbrev pub run : {A : Type 0} → (Db → A × Db) → Action A
run f db = let (a, db') = f db in (gets (λ _. a)) db'

-- `group_named`, with the name as it is kept
unfoldable pub group_named_text : ℕ → String → Action ℕ
unfolding find_or_insert
group_named_text owner text = do
  raise_if (not (leb 1 (length (codes text)) && leb (length (codes text)) 60)) bad_group_name
  g ←
      gets
        (λ db. first (λ (g : Group). g.owner_user_id == owner && nocase_eq g.name text) db.groups)
  run (find_or_insert owner text g)

unfoldable pub group_named : (String → String) → ℕ → String → Action ℕ
unfolding group_named_text
group_named squeeze owner text = group_named_text owner (squeeze text)

abbrev pub name_of : Option Group → String
name_of none = ""
name_of (some g) = g.name

unfoldable pub group_name : Db → Option ℕ → String
group_name db none = ""
group_name db (some group_id) = name_of (first (λ (g : Group). g.id == group_id) db.groups)

-- an entry of `groups_of`
pub record GroupEntry : Type 0 where
  pub id : ℕ
  pub name : String
  pub owner : Option String
  pub members : List String

-- `JOIN users`: a row whose user is not there is dropped
abbrev pub add_username : Option User → List String → List String
add_username none names = names
add_username (some u) names = u.username ∷ names

unfoldable pub member_names : Db → ℕ → List Tuple → List String
member_names db group_id [] = []
member_names db group_id (t ∷ ts) =
    let rest = member_names db group_id ts in
    if is_member_row t && t.object_id == group_id
    then add_username (first (λ (u : User). u.id == t.subject_id) db.users) rest
    else rest

abbrev pub owned_entry : Db → Group → GroupEntry
owned_entry db g = record {
  id = g.id;
  name = g.name;
  owner = none;
  members = member_names db g.id db.tuples;
}

abbrev pub join_entries : Group → Option User → List Tuple → List GroupEntry
join_entries g none ts = []
join_entries g (some u) ts =
    map (λ _. record { id = g.id; name = g.name; owner = some u.username; members = [] }) ts

-- the rows of the second query, by the id of the group
unfoldable pub joined_entries : Db → ℕ → List Group → List GroupEntry
joined_entries db user_id [] = []
joined_entries db user_id (g ∷ gs) =
    join_entries g (first (λ (u : User). u.id == g.owner_user_id) db.users)
      (select (λ t. is_member_row t && t.subject_id == user_id && t.object_id == g.id) db.tuples)
    ++ joined_entries db user_id gs

unfoldable pub groups_of : Db → ℕ → List GroupEntry
unfolding member_names joined_entries
groups_of db user_id =
    map (owned_entry db) (select (λ (g : Group). g.owner_user_id == user_id) db.groups)
    ++ joined_entries db user_id db.groups
