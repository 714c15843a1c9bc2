-- ===== src/Service/Cap.antt =====
-- The cap on what a user stores.
use doc_chat_template_scc.Common.{
  ℕ, ◌+◌, ◌-◌, ◌≤◌, ltb, ◌≡◌, ◌≢◌, refl, sym, ◌∙◌, true, false, not, Option, List, [], ◌∷◌, ◌++◌,
  codes_eq, ◌==◌, ==_iff, ==_refl, length, select, first, arith, Bool-cases, Option-cases, inl, inr,
  ltb-false, and-left,
}
use doc_chat_template_scc.Service.Storage.{
  storage_cap_bytes, File, Disk, safe_filename, is_file, find_file, total_bytes, size_or_zero,
  store_data, upload_storage, delete_storage,
}

total_bytes-append :
    (u : ℕ) (xs ys : Disk) → total_bytes u (xs ++ ys) ≡ total_bytes u xs + total_bytes u ys
unfolding total_bytes
total_bytes-append u [] ys = omega arith
total_bytes-append u (f ∷ xs) ys =
    let rest = total_bytes-append u xs ys in
    elim (Bool-cases (f.user_id == u)) [ inl e ↦ rw e (omega (arith, rest)) | inr e ↦ rw e rest ]

abbrev others : ℕ → List ℕ → Disk → Disk
others u name disk = select (λ f. not (is_file u name f)) disk

-- Removing files frees space, ...
total_bytes-others :
    (v u : ℕ) (name : List ℕ) (disk : Disk)
    → total_bytes v (others u name disk) ≤ total_bytes v disk
unfolding total_bytes select
total_bytes-others v u name [] = omega arith
total_bytes-others v u name (f ∷ disk) =
    let rest = total_bytes-others v u name disk in
    elim (Bool-cases (is_file u name f)) [
      | inl e ↦ elim (Bool-cases (f.user_id == v)) [
        | inl g ↦ rw e (rw g (omega (arith, rest)))
        | inr g ↦ rw e (rw g rest)
      ]
      | inr e ↦ elim (Bool-cases (f.user_id == v)) [
        | inl g ↦ rw e (rw g (omega (arith, rest)))
        | inr g ↦ rw e (rw g rest)
      ]
    ]

-- ... at least that of the file with the name.
total_bytes-replaced :
    (u : ℕ) (name : List ℕ) (disk : Disk)
    → total_bytes u (others u name disk) + size_or_zero (find_file u name disk) ≤ total_bytes u disk
unfolding total_bytes select first
total_bytes-replaced u name [] = omega arith
total_bytes-replaced u name (f ∷ disk) =
    let rest = total_bytes-replaced u name disk in
    let less = total_bytes-others u u name disk in
    elim (Bool-cases (is_file u name f)) [
      | inl e ↦
          let own : (f.user_id == u) ≡ true =
            and-left (f.user_id == u) (codes_eq f.filename name) e in
          rw e (rw own (omega (arith, less)))
      | inr e ↦ elim (Bool-cases (f.user_id == u)) [
        | inl g ↦ rw e (rw g (omega (arith, rest)))
        | inr g ↦ rw e (rw g rest)
      ]
    ]

-- No user's directory is over the cap.
abbrev pub IsWithinCap : Disk → Type 0
IsWithinCap disk = (u : ℕ) → total_bytes u disk ≤ storage_cap_bytes

total_bytes-one : (v u : ℕ) (f : File) → f.user_id ≡ u → v ≢ u → total_bytes v (f ∷ []) ≡ 0
unfolding total_bytes
total_bytes-one v u f e n = elim (Bool-cases (f.user_id == v)) [
  | inl k ↦ absurd (n (sym ((==_iff f.user_id v).0 k) ∙ e))
  | inr k ↦ rw k refl
]

total_bytes-own : (f : File) → total_bytes f.user_id (f ∷ []) ≡ length f.bytes
unfolding total_bytes
total_bytes-own f = rw (==_refl f.user_id) (omega arith)

store_data-IsWithinCap :
    (u : ℕ) (name bytes : List ℕ) (now : ℕ) (disk : Disk)
    → IsWithinCap disk
    → IsWithinCap (store_data u name bytes now disk).1
unfolding store_data
store_data-IsWithinCap u name bytes now disk h v =
    let old = size_or_zero (find_file u name disk) in
    let f : File = record { user_id = u; filename = name; bytes = bytes; mtime = now } in
    elim (Bool-cases (ltb storage_cap_bytes (total_bytes u disk - old + length bytes))) [
      | inl e ↦ rw e (h v)
      | inr e ↦
          let room = ltb-false storage_cap_bytes (total_bytes u disk - old + length bytes) e in
          let sum = total_bytes-append v (others u name disk) (f ∷ []) in
          let less = total_bytes-others v u name disk in
          let before = h v in
          elim (Bool-cases (v == u)) [
            | inl g ↦
                let same : v ≡ u = (==_iff v u).0 g in
                let freed = total_bytes-replaced u name disk in
                let own = total_bytes-own f in
                rw e (
                  rw same (
                    rw (total_bytes-append u (others u name disk) (f ∷ []))
                      (omega (arith, room, freed, own))))
            | inr g ↦
                let none_of = total_bytes-one v u f refl (λ k.
                  let q = (==_iff v u).1 k in let t : true ≡ false = sym q ∙ g in absurd (cc)) in
                rw e (omega (arith, sum, less, none_of, before))
          ]
    ]

-- what changes the disk, for a signed-in user
pub data Change : Type 0 where
  upload : (user_id : ℕ) (filename content : List ℕ) (now : ℕ) → Change
  delete : (user_id : ℕ) (filename : List ℕ) → Change

module _ (b64decode : List ℕ → Option (List ℕ)) (b64encode : List ℕ → List ℕ) where
  abbrev change : Change → Disk → Disk
  change (upload u filename content now) disk =
      (upload_storage b64decode b64encode u filename content now disk).1
  change (delete u filename) disk = (delete_storage u filename disk).1

  -- the disk after some changes, the latest first
  unfoldable pub disk_after : List Change → Disk
  disk_after [] = []
  disk_after (c ∷ earlier) = change c (disk_after earlier)

  upload_storage-IsWithinCap :
      (u : ℕ) (filename content : List ℕ) (now : ℕ) (disk : Disk)
      → IsWithinCap disk
      → IsWithinCap (upload_storage b64decode b64encode u filename content now disk).1
  unfolding upload_storage
  upload_storage-IsWithinCap u filename content now disk h v =
      elim (Option-cases (safe_filename filename)) [
        | inl e ↦ rw e (h v)
        | inr (name, e) ↦ elim (Option-cases (b64decode content)) [
          | inl f ↦ rw e (rw f (h v))
          | inr (bytes, f) ↦ rw e (rw f (store_data-IsWithinCap u name bytes now disk h v))
        ]
      ]

  delete_storage-IsWithinCap :
      (u : ℕ) (filename : List ℕ) (disk : Disk)
      → IsWithinCap disk
      → IsWithinCap (delete_storage u filename disk).1
  unfolding delete_storage
  delete_storage-IsWithinCap u filename disk h v = elim (Option-cases (safe_filename filename)) [
    | inl e ↦ rw e (h v)
    | inr (name, e) ↦
        let less = total_bytes-others v u name disk in let k = h v in rw e (omega (arith, less, k))
  ]

  change-IsWithinCap : (c : Change) (disk : Disk) → IsWithinCap disk → IsWithinCap (change c disk)
  change-IsWithinCap (upload u filename content now) disk h =
      upload_storage-IsWithinCap u filename content now disk h
  change-IsWithinCap (delete u filename) disk h = delete_storage-IsWithinCap u filename disk h

  -- Whatever is uploaded and deleted, by whomever and in whatever order, no user's files take more
  -- than the cap.
  pub disk_after-IsWithinCap : (changes : List Change) → IsWithinCap (disk_after changes)
  unfolding disk_after total_bytes
  disk_after-IsWithinCap [] u = omega arith
  disk_after-IsWithinCap (c ∷ earlier) u =
      change-IsWithinCap c (disk_after earlier) (disk_after-IsWithinCap earlier) u
