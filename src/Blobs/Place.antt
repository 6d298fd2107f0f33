-- ===== src/Blobs/Place.antt =====
-- Where blossom.go keeps the blobs.
use croissant.Base.{
  Bool, true, false, Option, none, some, List, [], ◌∷◌, ◌++◌, String, nat_eq, string_eq,
  if◌then◌else◌, ◌≡◌, refl, Bool-cases, inl, inr, ap,
}
use croissant.Config.{Blossom}
use croissant.Blobs.{
  Fs, s3_fs, subdir_fs, Places, Blobs, join_next, filepath_join_with_absolute, uses_s3, backend,
  with_backend, in_bucket, new_s3_fs, new_subdir_fs, init_blossom,
}

module _ (places : Places) where
  -- Only the last part counts.
  filepath_join_with_absolute-last :
      (res : String) (parts : List String) (p : String)
      → filepath_join_with_absolute places res (parts ++ p ∷ [])
        ≡ (if places.is_abs p then p else places.clean p)
  unfolding filepath_join_with_absolute
  filepath_join_with_absolute-last res [] p = refl
  filepath_join_with_absolute-last res (q ∷ parts) p =
      filepath_join_with_absolute-last (join_next places res q) parts p

  abbrev pub local_dir : Blossom → String
  local_dir b = if places.is_abs b.local_path then b.local_path else places.clean b.local_path

  in_bucket-s3_fs :
      (endpoint bucket : String) (found : Option Bool) {fs : Fs}
      → in_bucket places endpoint bucket found ≡ some fs
      → fs ≡ s3_fs endpoint bucket
  in_bucket-s3_fs endpoint bucket none h = cc
  in_bucket-s3_fs endpoint bucket (some false) h = cc
  in_bucket-s3_fs endpoint bucket (some true) h = cc

  new_s3_fs-s3_fs :
      (endpoint key_id secret bucket : String) {fs : Fs}
      → new_s3_fs places endpoint key_id secret bucket ≡ some fs
      → fs ≡ s3_fs endpoint bucket
  unfolding new_s3_fs
  new_s3_fs-s3_fs endpoint key_id secret bucket h =
      elim (Bool-cases (places.connects endpoint key_id secret)) [
        | inl connected ↦
            in_bucket-s3_fs endpoint bucket (places.bucket_exists endpoint bucket)
              (rw connected at h)
        | inr apart ↦ cc (rw apart at h)
      ]

  new_subdir_fs-subdir_fs :
      (dir : String) {fs : Fs} → new_subdir_fs places dir ≡ some fs → fs ≡ subdir_fs dir
  unfolding new_subdir_fs
  new_subdir_fs-subdir_fs dir h = elim (Bool-cases (places.mkdir_all dir)) [
    | inl made ↦ cc (rw made at h)
    | inr not_made ↦ cc (rw not_made at h)
  ]

  -- The bucket or the directory that the settings name.
  abbrev pub named_fs : Blossom → Fs
  named_fs b = if uses_s3 places b then s3_fs b.s3_endpoint b.s3_bucket else subdir_fs (local_dir b)

  backend-named_fs :
      (data_path : String) (b : Blossom) {fs : Fs}
      → backend places data_path b ≡ some fs
      → fs ≡ named_fs b
  backend-named_fs data_path b h = elim (Bool-cases (uses_s3 places b)) [
    | inl remote ↦
        rw remote
          (new_s3_fs-s3_fs b.s3_endpoint b.s3_key_id b.s3_secret b.s3_bucket (rw remote at h))
    | inr local ↦ rw local (
        new_subdir_fs-subdir_fs (local_dir b)
          (rw (local, filepath_join_with_absolute-last data_path [] b.local_path) at h))
  ]

  with_backend-named_fs :
      (data_path : String) (b : Blossom) (blobs : Blobs) (fs : Option Fs)
      → backend places data_path b ≡ fs
      → (with_backend places blobs fs).1 ≡ true
      → ((with_backend places blobs fs).0.index_open ≡ true)
        × ((with_backend places blobs fs).0.fs ≡ some (named_fs b))
  with_backend-named_fs data_path b blobs none at h = cc
  with_backend-named_fs data_path b blobs (some fs) at h =
      (refl, ap some (backend-named_fs data_path b at))

  -- Where initBlossom ends without an error, the index is open and the blobs are in the bucket, if the
  -- settings name a key, a secret and a bucket, and else in the directory of blossom_local_path. A
  -- relative one is not put under the data path, which changes nothing: with another, the outcome is the same.
  pub init_blossom_lem :
      (layer : Bool) (data_path other : String) (b : Blossom) (blobs : Blobs)
      → let (blobs', ok) = init_blossom places layer data_path b blobs in
        (init_blossom places layer other b blobs ≡ (blobs', ok))
        × (ok ≡ true → (blobs'.index_open ≡ true) × (blobs'.fs ≡ some (named_fs b)))
  unfolding init_blossom
  init_blossom_lem false data_path other b blobs = (refl, λ h. cc)
  init_blossom_lem true data_path other b blobs = (
    rw
        (
          filepath_join_with_absolute-last data_path [] b.local_path,
          filepath_join_with_absolute-last other [] b.local_path,
        )
        refl,
    with_backend-named_fs data_path b blobs (backend places data_path b) refl,
  )
