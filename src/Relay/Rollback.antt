-- ===== src/Relay/Rollback.antt =====
-- The rollback of relay.go undoes what rejectEvent of reject_event.go did.
use croissant.Base.{
  Bool, true, false, Option, none, some, String, load, store, delete, load-store_other,
  load-delete_self, load-delete_other, eq_of_beq, Bool-cases, inl, inr, ◌==◌, nat_eq, string_eq,
  ◌≡◌, refl, sym, ap, ◌∙◌, subst,
}
use croissant.Nostr.{NostrLib, EventStore, Event, FoundTag, PubKey, Timestamp}
use croissant.Nostr.Kinds
use croissant.Verdict.{Verdict, accept}
use croissant.Groups.{GroupsState, new_group}
use croissant.Groups.Tags.{get_group_id_from_event}
use croissant.Write.Presence.{Settings, Lru, Caches, Pool}
use croissant.Write.{reject_event}
use croissant.Write.Creation.{accepted_creation}
use croissant.Relay.{roll_back, store_event}

module _ (lib : NostrLib) {Db E C : Type 0} (es : EventStore Db E) (lru : Lru C)
    (settings : Settings) (pool : Pool) (limiter : Option (Event → Verdict)) (now : Timestamp)
    (is_dup : E → Bool) where
  placed_and_deleted :
      (s : GroupsState Db) (group_id id : String)
      → load s.groups group_id ≡ none
      → load (delete (store s.groups group_id (new_group s group_id)) group_id) id
        ≡ load s.groups id
  placed_and_deleted s group_id id free = elim (Bool-cases (group_id == id)) [
    | inl same ↦
        subst
          (λ id.
            load (delete (store s.groups group_id (new_group s group_id)) group_id) id
            ≡ load s.groups id)
          (eq_of_beq group_id id same)
          (load-delete_self (store s.groups group_id (new_group s group_id)) group_id ∙ sym free)
    | inr other ↦
        load-delete_other (store s.groups group_id (new_group s group_id)) group_id id other
        ∙ load-store_other s.groups group_id (new_group s group_id) id other
  ]

  named :
      (event : Event) {htag : FoundTag}
      → lib.is_metadata_kind event.kind ≡ false
      → lib.find event.tags "h" ≡ some htag
      → get_group_id_from_event lib event ≡ some htag.value
  unfolding get_group_id_from_event
  named event plain e = rw (plain, e) refl

  store_event-fails :
      (t : GroupsState Db) (event : Event) (group_id : String) {db : Db} {err : E}
      → (event.kind == Kinds.create_group) ≡ true
      → get_group_id_from_event lib event ≡ some group_id
      → es.save_event t.db event ≡ (db, some err)
      → is_dup err ≡ false
      → store_event lib es is_dup t event
        ≡ (record t { db = db; groups = delete t.groups group_id }, some err)
  unfolding store_event roll_back
  store_event-fails t event group_id by_kind at fails new = rw (fails, new, by_kind, at) refl

  -- When rejectEvent lets the creation of a group through, from a key other than the relay's, and the
  -- store then fails to save the event, with an error that does not say it is there already, StoreEvent
  -- returns the error and every id has the group again that it had before rejectEvent was asked, or none:
  -- the creation can be tried again.
  pub failed_creation_rolled_back :
      (s : GroupsState Db) (authed : Option PubKey) (event : Event) (caches : Caches C) {db : Db}
      {err : E}
      → (event.pub_key == settings.relay_public_key) ≡ false
      → event.kind ≡ Kinds.create_group
      → lib.is_metadata_kind event.kind ≡ false
      → let d = reject_event lib es lru settings pool limiter now s authed event caches in
        d.0 ≡ accept
        → es.save_event d.2.db event ≡ (db, some err)
        → is_dup err ≡ false
        → let r = store_event lib es is_dup d.2 event in
          (r.1 ≡ some err) × ((id : String) → load r.0.groups id ≡ load s.groups id)
  failed_creation_rolled_back s authed event caches {db} {err} other creates plain h fails new =
      let (htag, e, free, _, kept, _) =
        accepted_creation lib es lru settings pool limiter now s authed event caches other creates
          h in
      let by_kind : (event.kind == Kinds.create_group) ≡ true = simp creates refl in
      let at : get_group_id_from_event lib event ≡ some htag.value = named event plain e in
      let d = reject_event lib es lru settings pool limiter now s authed event caches in
      rw (store_event-fails d.2 event htag.value by_kind at fails new) (
        refl,
        λ id.
            ap (λ t. load (delete t.groups htag.value) id) kept
            ∙ placed_and_deleted s htag.value id free,
      )
