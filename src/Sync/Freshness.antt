-- ===== src/Sync/Freshness.antt =====
-- What SyncGroupMetadataEvents of group.go yields is newer than what it replaces.
use croissant.Base.{
  All-map, All-append, suc, ◌+◌, ◌<◌, true, false, none, List, [], ◌∷◌, String, All, ltb, ◌≡◌, refl,
  ◌∙◌, ◌⊎◌, inl, inr, arith, Bool-cases, Option-cases,
}
use croissant.Nostr.{NostrLib, EventStore, Event, PubKey, Timestamp}
use croissant.Groups.{Group}
use croissant.Sync.{
  MetadataLib, candidates, current_event, bump, sign_or_keep, sync_one, sync_each,
  sync_group_metadata_events,
}

module _ (lib : NostrLib) (meta : MetadataLib) {Db E : Type 0} (es : EventStore Db E)
    (relay_key : PubKey) (now : Timestamp) (group_id : String) where
  -- `e` stands for `updated` in a store `db`, where it has replaced what was found.
  pub record IsRenewal (updated e : Event) : Type 0 where
    pub db : Db
    pub supersedes :
        (current_event lib meta es relay_key now db group_id updated).created_at < e.created_at
    pub not_older : updated.created_at < suc e.created_at
    pub same_tags : e.tags ≡ updated.tags
    pub same_kind : e.kind ≡ updated.kind
    pub changed :
        meta.tags_eq (current_event lib meta es relay_key now db group_id updated).tags updated.tags
        ≡ false
    pub saved : (es.replace_event db e).1.1 ≡ none
    pub recent : now < e.created_at + 180

  abbrev pub IsRenewalOf : List Event → Event → Type 0
  IsRenewalOf [] e = ⊥
  IsRenewalOf (u ∷ us) e = IsRenewal u e ⊎ IsRenewalOf us e

  -- What signing leaves alone.
  signed_same :
      (e : Event)
      → let r = sign_or_keep lib meta es relay_key now e in
        (r.created_at ≡ e.created_at) × (r.tags ≡ e.tags) × (r.kind ≡ e.kind)
  signed_same e = elim (Option-cases (lib.sign e)) [
    | inl unsigned ↦ rw (unsigned, sign_or_keep) (refl, refl, refl)
    | inr (signed, ok) ↦ rw (ok, sign_or_keep) (refl, refl, refl)
  ]

  bumped :
      (current updated : Event)
      → let b = bump lib meta es relay_key now current updated in
        (current.created_at < b.created_at)
        × (updated.created_at < suc b.created_at)
        × (b.tags ≡ updated.tags)
        × (b.kind ≡ updated.kind)
  bumped current updated = elim (Bool-cases (ltb current.created_at updated.created_at)) [
    | inl newer ↦ rw (newer, bump) (ground (arith, newer), omega arith, refl, refl)
    | inr older ↦ rw (older, bump) (omega arith, ground (arith, older), refl, refl)
  ]

  renewed : Db → Event → Event
  renewed db updated = sign_or_keep lib meta es relay_key now (
      bump lib meta es relay_key now (current_event lib meta es relay_key now db group_id updated)
        updated)

  renewal :
      (db : Db) (updated : Event)
      → meta.tags_eq (current_event lib meta es relay_key now db group_id updated).tags updated.tags
        ≡ false
      → (es.replace_event db (renewed db updated)).1.1 ≡ none
      → ltb now ((renewed db updated).created_at + 180) ≡ true
      → IsRenewal updated (renewed db updated)
  unfolding renewed
  renewal db updated differs stored soon =
      let current = current_event lib meta es relay_key now db group_id updated in
      let b = bumped current updated in
      let r = signed_same (bump lib meta es relay_key now current updated) in
      record {
        db = db;
        supersedes = omega (arith, b.0, r.0);
        not_older = omega (arith, b.1, r.0);
        same_tags = r.1 ∙ b.2;
        same_kind = r.2 ∙ b.3;
        changed = differs;
        saved = stored;
        recent = ground (arith, soon);
      }

  sync_one-IsRenewal :
      (db : Db) (updated : Event)
      → All (IsRenewal updated) (sync_one lib meta es relay_key now group_id db updated).1
  unfolding sync_one renewed
  sync_one-IsRenewal db updated =
      elim (Bool-cases (
        meta.tags_eq (current_event lib meta es relay_key now db group_id updated).tags
          updated.tags)) [
            | inl same ↦ rw (same, sync_one) tt
            | inr differs ↦ elim (Option-cases (es.replace_event db (renewed db updated)).1.1) [
              | inr (err, fails) ↦ rw (differs, fails, sync_one) tt
              | inl stored ↦ elim (Bool-cases (ltb now ((renewed db updated).created_at + 180))) [
                | inl soon ↦
                    rw (differs, stored, soon, sync_one)
                      (renewal db updated differs stored soon, tt)
                | inr late ↦ rw (differs, stored, late, sync_one) tt
              ]
            ]
          ]

  sync_each-IsRenewalOf :
      (us : List Event) (db : Db)
      → All (IsRenewalOf us) (sync_each lib meta es relay_key now group_id us db).1
  unfolding sync_each
  sync_each-IsRenewalOf [] db = tt
  sync_each-IsRenewalOf (u ∷ us) db =
      let (db', yielded) = sync_one lib meta es relay_key now group_id db u in
      All-append (IsRenewalOf (u ∷ us)) yielded _
        (All-map (IsRenewal u) (IsRenewalOf (u ∷ us)) (λ e h. inl h) yielded
          (sync_one-IsRenewal db u))
        (All-map (IsRenewalOf us) (IsRenewalOf (u ∷ us)) (λ e h. inr h) _
          (sync_each-IsRenewalOf us db'))

-- Every event that SyncGroupMetadataEvents yields renews one of the four metadata events of the group,
-- with its kind and tags. When it was made, the store's event of that kind had other tags; the new one
-- is later than that event, not earlier than the group's own date for it, at most 180 seconds old, and
-- the store replaced its event by it without an error.
pub sync_group_metadata_events-IsRenewalOf :
    (lib : NostrLib) (meta : MetadataLib) {Db E : Type 0} (es : EventStore Db E)
    (relay_key : PubKey) (now : Timestamp) (group : Group) (db : Db)
    → All
        (IsRenewalOf lib meta es relay_key now group.id
          (candidates lib meta es relay_key now group))
        (sync_group_metadata_events lib meta es relay_key now group db).1
unfolding sync_group_metadata_events
sync_group_metadata_events-IsRenewalOf lib meta es relay_key now group db =
    sync_each-IsRenewalOf lib meta es relay_key now group.id
      (candidates lib meta es relay_key now group) db
