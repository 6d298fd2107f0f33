-- ===== src/Config/File/Persistence.antt =====
-- The settings that loadSettings of global/settings.go returns are those in the file, and complete.
-- What is used of os and encoding/json: MkdirAll does nothing where the directory exists, a file that is
-- written can be read, and what is marshalled unmarshals to the same, except the owner's key, which has
-- the tag "-" and stays zero.
use croissant.Base.{
  ℕ, Bool, true, false, Option, none, some, ◌==◌, nat_eq, string_eq, ◌≡◌, ◌≢◌, refl, subst, inl,
  inr, Bool-cases, beq_false_of_ne, ne_of_beq_false,
}
use croissant.Config.{RelaySettings}
use croissant.Config.File.{
  Content, content, not_exist, unreadable, Os, Loaded, loaded, failed, initial_settings, save,
  written, or_not_saved, complete_path, complete, then_path, from_parsed, from_content, in_dir,
  load_settings,
}

module _ {Files Bytes : Type 0} (os : Os Files Bytes) (has_dir : Files → Bool)
    (mkdir_all_makes : (f f' : Files) → os.mkdir_all f ≡ (f', true) → has_dir f' ≡ true)
    (mkdir_all_idle : (f : Files) → has_dir f ≡ true → os.mkdir_all f ≡ (f, true))
    (write_file_keeps : (f f' : Files) (b : Bytes)
      → has_dir f ≡ true
      → os.write_file f b ≡ (f', true)
      → has_dir f' ≡ true)
    (read_file-write_file : (f f' : Files) (b : Bytes)
      → os.write_file f b ≡ (f', true)
      → os.read_file f' ≡ content b)
    (unmarshal-marshal : (s : RelaySettings) (b : Bytes)
      → s.owner_pub_key ≡ 0
      → os.marshal s ≡ some b
      → os.unmarshal b ≡ some s)
    (unmarshal_owner : (s : RelaySettings) (b : Bytes)
      → os.unmarshal b ≡ some s
      → s.owner_pub_key ≡ 0) where
  abbrev Stored : Files → RelaySettings → Type 0
  Stored f s =
      (has_dir f ≡ true)
      × (s.owner_pub_key ≡ 0)
      × ((b : Bytes) × (os.read_file f ≡ content b) × (os.unmarshal b ≡ some s))

  -- Settings that can be used, and that the file holds.
  abbrev Keyed : Files × Loaded → Type 0
  Keyed (f, failed e) = Unit
  Keyed (f, loaded s) = Stored f s × ((s.relay_secret_key == 0) ≡ false)

  abbrev Complete : Files × Loaded → Type 0
  Complete (f, failed e) = Unit
  Complete (f, loaded s) =
      Stored f s × ((s.relay_secret_key == 0) ≡ false) × ((s.blossom.local_path == "") ≡ false)

  written-Stored :
      (f f' : Files) (s : RelaySettings) (b : Option Bytes)
      → has_dir f ≡ true
      → s.owner_pub_key ≡ 0
      → os.marshal s ≡ b
      → written os f b ≡ (f', true)
      → Stored f' s
  written-Stored f f' s none dir owner at h = cc
  written-Stored f f' s (some b) dir owner at h = (
    write_file_keeps f f' b dir h,
    owner,
    (b, read_file-write_file f f' b h, unmarshal-marshal s b owner at),
  )

  save-Stored :
      (f f' : Files) (s : RelaySettings)
      → has_dir f ≡ true
      → s.owner_pub_key ≡ 0
      → save os f s ≡ (f', true)
      → Stored f' s
  unfolding save
  save-Stored f f' s dir owner h = written-Stored f f' s (os.marshal s) dir owner refl h

  or_not_saved-Keyed :
      (f : Files) (s : RelaySettings) (r : Files × Bool)
      → has_dir f ≡ true
      → s.owner_pub_key ≡ 0
      → (s.relay_secret_key == 0) ≡ false
      → save os f s ≡ r
      → Keyed (or_not_saved os s r)
  or_not_saved-Keyed f s (f', true) dir owner key h = (save-Stored f f' s dir owner h, key)
  or_not_saved-Keyed f s (f', false) dir owner key h = tt

  or_not_saved-Complete :
      (f : Files) (s : RelaySettings) (r : Files × Bool)
      → has_dir f ≡ true
      → s.owner_pub_key ≡ 0
      → (s.relay_secret_key == 0) ≡ false
      → (s.blossom.local_path == "") ≡ false
      → save os f s ≡ r
      → Complete (or_not_saved os s r)
  or_not_saved-Complete f s (f', true) dir owner key path h =
      (save-Stored f f' s dir owner h, key, path)
  or_not_saved-Complete f s (f', false) dir owner key path h = tt

  then_path-Complete : (r : Files × Loaded) → Keyed r → Complete (then_path os r)
  unfolding complete_path
  then_path-Complete (f, failed e) k = tt
  then_path-Complete (f, loaded s) ((dir, owner, stored), key) =
      elim (Bool-cases (s.blossom.local_path == "")) [
        | inr filled ↦ rw filled ((dir, owner, stored), key, filled)
        | inl blank ↦ rw blank (or_not_saved-Complete f _ _ dir owner key refl refl)
      ]

  complete-Complete :
      (f : Files) (key : ℕ) (s : RelaySettings)
      → (key == 0) ≡ false
      → Stored f s
      → Complete (complete os f key s)
  unfolding complete
  complete-Complete f key s fresh (dir, owner, stored) =
      elim (Bool-cases (s.relay_secret_key == 0)) [
        | inr keyed ↦ rw keyed (then_path-Complete (f, loaded s) ((dir, owner, stored), keyed))
        | inl unkeyed ↦ rw unkeyed (
            then_path-Complete _
              (or_not_saved-Keyed f (record s { relay_secret_key = key }) _ dir owner fresh refl))
      ]

  from_parsed-Complete :
      (f : Files) (key : ℕ) (b : Bytes) (r : Option RelaySettings)
      → (key == 0) ≡ false
      → has_dir f ≡ true
      → os.read_file f ≡ content b
      → os.unmarshal b ≡ r
      → Complete (from_parsed os f key r)
  from_parsed-Complete f key b none fresh dir at h = tt
  from_parsed-Complete f key b (some s) fresh dir at h =
      complete-Complete f key s fresh (dir, unmarshal_owner s b h, (b, at, h))

  from_content-Complete :
      (f : Files) (key : ℕ) (c : Content Bytes)
      → (key == 0) ≡ false
      → has_dir f ≡ true
      → os.read_file f ≡ c
      → Complete (from_content os f key c)
  from_content-Complete f key unreadable fresh dir h = tt
  from_content-Complete f key not_exist fresh dir h =
      or_not_saved-Complete f (initial_settings key) _ dir refl fresh refl refl
  from_content-Complete f key (content b) fresh dir h =
      from_parsed-Complete f key b (os.unmarshal b) fresh dir h refl

  in_dir-Complete :
      (f : Files) (key : ℕ) (r : Files × Bool)
      → (key == 0) ≡ false
      → os.mkdir_all f ≡ r
      → Complete (in_dir os key r)
  in_dir-Complete f key (f', false) fresh h = tt
  in_dir-Complete f key (f', true) fresh h =
      from_content-Complete f' key (os.read_file f') fresh (mkdir_all_makes f f' h) refl

  -- Complete settings are loaded as they are.
  load_stored :
      (f : Files) (key : ℕ) (s : RelaySettings)
      → Complete (f, loaded s)
      → load_settings os f key ≡ (f, loaded s)
  unfolding load_settings complete complete_path
  load_stored f key s ((dir, owner, (b, at, parsed)), keyed, filled) =
      rw (mkdir_all_idle f dir, at, parsed, keyed, filled) refl

  -- Settings that are loaded have a secret key and a directory for the blobs, and the next loading
  -- gives the same settings and writes nothing, whatever key it would generate: a key is generated
  -- once. A generated key is not zero.
  pub load_settings_again :
      (f f' : Files) (key : ℕ) (s : RelaySettings)
      → key ≢ 0
      → load_settings os f key ≡ (f', loaded s)
      → (s.relay_secret_key ≢ 0)
        × (s.blossom.local_path ≢ "")
        × ((next : ℕ) → load_settings os f' next ≡ (f', loaded s))
  unfolding load_settings
  load_settings_again f f' key s fresh h =
      let all : Complete (f', loaded s) =
        subst Complete h
          (in_dir-Complete f key (os.mkdir_all f) (beq_false_of_ne key 0 fresh) refl) in
      (
        ne_of_beq_false s.relay_secret_key 0 all.1,
        ne_of_beq_false s.blossom.local_path "" all.2,
        λ next. load_stored f' next s all,
      )
