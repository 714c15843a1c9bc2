-- ===== src/Service/Files.antt =====
-- What the storage of files gives back, and where it writes.
use doc_chat_template_scc.Common.{
  ℕ, ◌+◌, ◌-◌, ltb, ◌≡◌, refl, subst, true, false, ◌||◌, Option, some, List, [], ◌∷◌, codes_eq,
  ◌==◌, ==_refl, length, select, first, exists, arith, Bool-cases, Option-cases, inl, inr,
}
use doc_chat_template_scc.Trust.Invites.{is_nil, lstrip, rstrip}
use doc_chat_template_scc.Service.Storage.{
  storage_cap_bytes, Disk, basename, is_dots, safe_filename, is_file, find_file, total_bytes,
  size_or_zero, write_file, stored, FileInfo, store_data, upload_storage, download_storage,
}

codes_eq_refl : (s : List ℕ) → codes_eq s s ≡ true
codes_eq_refl [] = refl
codes_eq_refl (c ∷ s) = rw (==_refl c) (codes_eq_refl s)

find_file-write_file :
    (u : ℕ) (name bytes : List ℕ) (now : ℕ) (disk : Disk)
    → find_file u name (write_file u name bytes now disk)
      ≡ some (record { user_id = u; filename = name; bytes = bytes; mtime = now })
unfolding first select
find_file-write_file u name bytes now [] = rw (==_refl u) (rw (codes_eq_refl name) refl)
find_file-write_file u name bytes now (f ∷ disk) = elim (Bool-cases (is_file u name f)) [
  | inl e ↦ rw e (find_file-write_file u name bytes now disk)
  | inr e ↦ rw e (rw e (find_file-write_file u name bytes now disk))
]

module _ (b64decode : List ℕ → Option (List ℕ)) (b64encode : List ℕ → List ℕ) where
  -- Where base64 decodes what it encoded, an upload of encoded bytes that returns is downloaded, under
  -- the same name, as it was sent.
  pub upload_storage-download_storage :
      (u : ℕ) (filename bytes : List ℕ) (now : ℕ) (disk : Disk) (info : FileInfo)
      → b64decode (b64encode bytes) ≡ some bytes
      → (upload_storage b64decode b64encode u filename (b64encode bytes) now disk).0 ≡ stored info
      → download_storage b64decode b64encode u filename
          (upload_storage b64decode b64encode u filename (b64encode bytes) now disk).1
        ≡ stored (b64encode bytes)
  unfolding upload_storage download_storage store_data
  upload_storage-download_storage u filename bytes now disk info codec h =
      elim (Option-cases (safe_filename filename)) [
        | inl e ↦ absurd (let k = rw e at h in cc)
        | inr (name, e) ↦
            let size = total_bytes u disk - size_or_zero (find_file u name disk) + length bytes in
            elim (Bool-cases (ltb storage_cap_bytes size)) [
              | inl f ↦ absurd (let k = rw f at (rw codec at (rw e at h)) in cc)
              | inr f ↦
                  rw e (rw codec (rw f (rw (find_file-write_file u name bytes now disk) refl)))
            ]
      ]

basename-flat : (s : List ℕ) → exists (λ d. d == b'/') (basename s) ≡ false
unfolding basename exists
basename-flat [] = refl
basename-flat (c ∷ s) = elim (Bool-cases (exists (λ d. d == b'/') (c ∷ s))) [
  | inl e ↦ rw e (basename-flat s)
  | inr e ↦ rw e e
]

-- A name that is accepted is not empty, has no slash and is neither of the two names of directories.
pub safe_filename-flat :
    (filename name : List ℕ)
    → safe_filename filename ≡ some name
    → (is_nil name ≡ false) × (exists (λ d. d == b'/') name ≡ false) × (is_dots name ≡ false)
unfolding safe_filename
safe_filename-flat filename name h =
    let base = basename (rstrip (lstrip filename)) in
    elim (Bool-cases (is_nil base || is_dots base)) [
      | inl e ↦ absurd (let k = rw e at h in cc)
      | inr e ↦
          let k : some base ≡ some name = rw e at h in
          let same : base ≡ name = cc in
          subst
            (λ n. (is_nil n ≡ false) × (exists (λ d. d == b'/') n ≡ false) × (is_dots n ≡ false))
            same (ground (arith, e), basename-flat (rstrip (lstrip filename)), ground (arith, e))
    ]
