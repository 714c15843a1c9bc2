-- ===== src/Service/Storage.antt =====
-- casper_service/main.py: the files that a user stores with the service.
-- A name is the list of its code points, with the white space of ASCII. A directory is the list of its
-- files; `base64` is a pair of parameters, and decoding fails on what is not base64.
use doc_chat_template_scc.Common.{
  ℕ, ◌+◌, ◌-◌, ◌*◌, ltb, Bool, not, ◌&&◌, ◌||◌, Option, none, some, List, [], ◌∷◌, ◌++◌, codes,
  codes_eq, if◌then◌else◌, ◌==◌, length, select, first, exists,
}
use doc_chat_template_scc.Trust.Invites.{lstrip, rstrip, is_nil}

abbrev pub storage_cap_bytes : ℕ
storage_cap_bytes = 1024 * 1024 * 1024

-- a file under the directory of a user
pub record File : Type 0 where
  pub user_id : ℕ
  pub filename : List ℕ
  pub bytes : List ℕ
  pub mtime : ℕ

abbrev pub Disk : Type 0
Disk = List File

-- what is behind the last slash: `os.path.basename`
unfoldable pub basename : List ℕ → List ℕ
basename [] = []
basename (c ∷ s) = if exists (λ d. d == b'/') (c ∷ s) then basename s else c ∷ s

abbrev pub is_dots : List ℕ → Bool
is_dots name = codes_eq name (codes ".") || codes_eq name (codes "..")

-- the tests of `_safe_filename`: `none` is the error 400
abbrev pub checked_name : List ℕ → Option (List ℕ)
checked_name name = if is_nil name || is_dots name then none else some name

-- `_safe_filename`
unfoldable pub safe_filename : List ℕ → Option (List ℕ)
unfolding basename lstrip rstrip
safe_filename filename = checked_name (basename (rstrip (lstrip filename)))

abbrev pub is_file : ℕ → List ℕ → File → Bool
is_file user_id filename f = f.user_id == user_id && codes_eq f.filename filename

abbrev pub find_file : ℕ → List ℕ → Disk → Option File
find_file user_id filename disk = first (is_file user_id filename) disk

-- `_dir_total_bytes`
unfoldable pub total_bytes : ℕ → Disk → ℕ
total_bytes user_id [] = 0
total_bytes user_id (f ∷ disk) =
    let rest = total_bytes user_id disk in
    if f.user_id == user_id then length f.bytes + rest else rest

abbrev pub size_or_zero : Option File → ℕ
size_or_zero none = 0
size_or_zero (some f) = length f.bytes

-- `with open(target, "wb") as f: f.write(data)`
abbrev pub write_file : ℕ → List ℕ → List ℕ → ℕ → Disk → Disk
write_file user_id filename bytes now disk =
    select (λ f. not (is_file user_id filename f)) disk
    ++ (record { user_id = user_id; filename = filename; bytes = bytes; mtime = now }) ∷ []

pub data StorageError : Type 0 where
  invalid_filename invalid_base64 cap_exceeded file_not_found : StorageError

pub data Stored (A : Type 0) : Type 0 where
  stored : A → Stored A
  rejected : StorageError → Stored A

pub record FileInfo : Type 0 where
  pub filename : List ℕ
  pub size : ℕ
  pub uploaded_at : ℕ

-- from the decoded data on
unfoldable pub store_data : ℕ → List ℕ → List ℕ → ℕ → Disk → Stored FileInfo × Disk
unfolding total_bytes
store_data user_id name bytes now disk =
    let existing_size = size_or_zero (find_file user_id name disk) in
    if ltb storage_cap_bytes (total_bytes user_id disk - existing_size + length bytes)
    then (rejected cap_exceeded, disk)
    else (
      stored (record { filename = name; size = length bytes; uploaded_at = now }),
      write_file user_id name bytes now disk,
    )

module _ (b64decode : List ℕ → Option (List ℕ)) (b64encode : List ℕ → List ℕ) where
  abbrev pub store_decoded : ℕ → List ℕ → Option (List ℕ) → ℕ → Disk → Stored FileInfo × Disk
  store_decoded user_id name none now disk = (rejected invalid_base64, disk)
  store_decoded user_id name (some bytes) now disk = store_data user_id name bytes now disk

  abbrev pub upload_as : ℕ → Option (List ℕ) → List ℕ → ℕ → Disk → Stored FileInfo × Disk
  upload_as user_id none content now disk = (rejected invalid_filename, disk)
  upload_as user_id (some name) content now disk =
      store_decoded user_id name (b64decode content) now disk

  -- `upload_storage`, for a signed-in user; `write` of `_make_storage_io` does the same
  unfoldable pub upload_storage : ℕ → List ℕ → List ℕ → ℕ → Disk → Stored FileInfo × Disk
  unfolding safe_filename store_data
  upload_storage user_id filename content now disk =
      upload_as user_id (safe_filename filename) content now disk

  abbrev pub content_of : Option File → Stored (List ℕ)
  content_of none = rejected file_not_found
  content_of (some f) = stored (b64encode f.bytes)

  abbrev pub download_as : ℕ → Option (List ℕ) → Disk → Stored (List ℕ)
  download_as user_id none disk = rejected invalid_filename
  download_as user_id (some name) disk = content_of (find_file user_id name disk)

  -- `download_storage`; `read` of `_make_storage_io` returns None where this raises
  unfoldable pub download_storage : ℕ → List ℕ → Disk → Stored (List ℕ)
  unfolding safe_filename
  download_storage user_id filename disk = download_as user_id (safe_filename filename) disk

abbrev pub delete_as : ℕ → Option (List ℕ) → Disk → Stored Unit × Disk
delete_as user_id none disk = (rejected invalid_filename, disk)
delete_as user_id (some name) disk = (stored tt, select (λ f. not (is_file user_id name f)) disk)

-- `delete_storage`
unfoldable pub delete_storage : ℕ → List ℕ → Disk → Stored Unit × Disk
unfolding safe_filename
delete_storage user_id filename disk = delete_as user_id (safe_filename filename) disk
