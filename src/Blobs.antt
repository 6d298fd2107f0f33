-- ===== src/Blobs.antt =====
-- blossom.go and fs/: where the blobs of the relay are kept, and who may upload one. Also
-- filepathJoinWithAbsolute of utils.go, which names their directory. Parameters: path/filepath, os, the
-- S3 client, and the opening of the index.
pub mod Place
use Prim.Native.String.{◌++◌}
use croissant.Base.{
  ℕ, Bool, true, false, not, ◌&&◌, Option, none, some, List, [], ◌∷◌, String, has, is_empty, ◌==◌,
  nat_eq, string_eq, if◌then◌else◌,
}
use croissant.Nostr.{Event}
use croissant.Groups.{GroupsState}
use croissant.Config.{Blossom}

-- A fs.FS: a bucket, or a directory.
pub data Fs : Type 0 where
  s3_fs : (endpoint bucket : String) → Fs
  subdir_fs : (subdir : String) → Fs

-- filepath.IsAbs, filepath.Join of one part, os.MkdirAll, minio.New, and BucketExists: a none is its error.
pub record Places : Type 0 where
  pub is_abs : String → Bool
  pub clean : String → String
  pub mkdir_all : String → Bool
  pub connects : (endpoint key_id secret : String) → Bool
  pub bucket_exists : (endpoint bucket : String) → Option Bool

-- The variables of blossom.go.
pub record Blobs : Type 0 where
  pub serves : Bool
  pub index_open : Bool
  pub fs : Option Fs

unfoldable pub reset_blossom : Blobs
reset_blossom = record { serves = false; index_open = false; fs = none }

module _ (places : Places) where
  abbrev pub join_next : String → String → String
  join_next res p = if places.is_abs p then p else places.clean p

  -- The first part, and the others.
  unfoldable pub filepath_join_with_absolute : String → List String → String
  filepath_join_with_absolute res [] = res
  filepath_join_with_absolute res (p ∷ parts) = filepath_join_with_absolute (join_next res p) parts

  unfoldable pub new_subdir_fs : String → Option Fs
  new_subdir_fs path = if places.mkdir_all path then some (subdir_fs path) else none

  abbrev pub in_bucket : String → String → Option Bool → Option Fs
  in_bucket endpoint bucket none = none
  in_bucket endpoint bucket (some false) = none
  in_bucket endpoint bucket (some true) = some (s3_fs endpoint bucket)

  unfoldable pub new_s3_fs : String → String → String → String → Option Fs
  new_s3_fs endpoint key_id secret bucket =
      if places.connects endpoint key_id secret
      then in_bucket endpoint bucket (places.bucket_exists endpoint bucket)
      else none

  abbrev pub uses_s3 : Blossom → Bool
  uses_s3 b = not (b.s3_key_id == "") && not (b.s3_secret == "") && not (b.s3_bucket == "")

  abbrev pub backend : String → Blossom → Option Fs
  backend data_path b =
      if uses_s3 b
      then new_s3_fs b.s3_endpoint b.s3_key_id b.s3_secret b.s3_bucket
      else new_subdir_fs (filepath_join_with_absolute data_path (b.local_path ∷ []))

  abbrev pub with_backend : Blobs → Option Fs → Blobs × Bool
  with_backend blobs none = (record blobs { index_open = true; fs = none }, false)
  with_backend blobs (some fs) = (record { serves = true; index_open = true; fs = some fs }, true)

  -- initBlossom, where the store is open; `layer` is EnsureLayer's success. A false is an error.
  unfoldable pub init_blossom : Bool → String → Blossom → Blobs → Blobs × Bool
  unfolding filepath_join_with_absolute new_subdir_fs new_s3_fs
  init_blossom layer data_path b blobs =
      if layer then with_backend blobs (backend data_path b) else (blobs, false)

-- RejectUpload: a none lets the upload pass, else the message and the status.
unfoldable pub reject_upload : {Db : Type 0} → GroupsState Db → Option Event → Option (String × ℕ)
reject_upload s none = some ("authentication required", 401)
reject_upload s (some auth) =
    if has s.all_members auth.pub_key
    then none
    else some ("only group members can upload blobs", 403)

-- What LoadBlob answers: a redirection, or the file system's reader. `join_path` sets the path of the
-- parsed URL to path.Join of it and the name; a none of it is a URL that does not parse.
pub data Loads (Url Reader : Type 0) : Type 0 where
  redirects : Url → Loads Url Reader
  bad_url : Loads Url Reader
  reads : Reader → Loads Url Reader

abbrev pub redirected : {Url Reader : Type 0} → Option Url → Loads Url Reader
redirected none = bad_url
redirected (some url) = redirects url

unfoldable pub load_blob :
    {Url Reader : Type 0}
    → (String → String → Option Url)
    → (String → Reader)
    → Blossom
    → String
    → String
    → Loads Url Reader
load_blob join_path open_file b sha256 ext =
    if not (b.s3_redirect_base_url == "")
    then redirected (join_path b.s3_redirect_base_url (sha256 ++ ext))
    else reads (open_file (sha256 ++ ext))

-- S3FS.Save: the names in the bucket that begin with the path, and PutObject.
unfoldable pub s3_save :
    {Net Bytes E : Type 0}
    → (Net → String → List String)
    → (Net → String → Bytes → Net × Option E)
    → Net
    → String
    → Bytes
    → Net × Option E
s3_save list_objects put_object net path bytes =
    if not (is_empty (list_objects net path)) then (net, none) else put_object net path bytes
