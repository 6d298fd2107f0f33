-- ===== src/Process/Effects/Unlinking.antt =====
-- What the deletion of a group in process_event.go changes in the entry of its parent.
use croissant.Base.{
  true, false, some, List, String, load, store, contains, erase, append_unique, contains-snoc_self,
  Option-cases, ◌⊎◌, ◌≢◌, Bool-cases, load-store_self, load-store_other, ◌==◌, nat_eq, string_eq,
  ◌≡◌, refl, ◌∙◌, ap, inl, inr,
}
use croissant.Nostr.{NostrLib, EventStore, Event}
use croissant.Groups.{Group, GroupsState}
use croissant.Groups.Children.{with_children, remove_parent_child}
use croissant.Process.Phases.{Phase, goes_on, note_parent}
use croissant.Process.Moderation.{unlink_parent}

contains-append_unique : (xs : List String) (a : String) → contains (append_unique xs a) a ≡ true
contains-append_unique xs a = elim (Bool-cases (contains xs a)) [
  | inl here ↦ rw here here
  | inr new ↦ rw new (contains-snoc_self xs a)
]

module _ {Db : Type 0} where
  -- What becomes of the entry of the parent: where it listed the child, it lists it once less, its time
  -- moves on to that of the event, and it is among the affected groups. Else it stays.
  pub record Unlinked (s : GroupsState Db) (event : Event) (id parent : String)
      (s' : GroupsState Db) (affected : List String) : Type 0 where
    pub listed :
        (p : Group)
        → load s.groups parent ≡ some p
        → (parent == "") ≡ false
        → contains p.children id ≡ true
        → (load s'.groups parent ≡ some (with_children p (erase p.children id) event.created_at))
          × (contains affected parent ≡ true)
    pub unlisted :
        (p : Group)
        → load s.groups parent ≡ some p
        → contains p.children id ≡ false
        → load s'.groups parent ≡ some p

  -- Nothing changed but the entry of the parent.
  pub record OnlyAt (s : GroupsState Db) (event : Event) (id parent : String) (s' : GroupsState Db)
      (affected : List String) : Type 0 where
    pub at : Unlinked s event id parent s' affected
    pub others :
        (j : String)
        → (parent == "") ≡ true ⊎ (parent == j) ≡ false
        → load s'.groups j ≡ load s.groups j
    pub records : s'.deleted_groups ≡ s.deleted_groups
    pub db : s'.db ≡ s.db
    pub counts : s'.all_members ≡ s.all_members

  unlisted-OnlyAt :
      (s : GroupsState Db) (event : Event) (id parent : String) (affected : List String)
      → ((p : Group)
          → load s.groups parent ≡ some p
          → (parent == "") ≡ false
          → contains p.children id ≢ true)
      → OnlyAt s event id parent s affected
  unlisted-OnlyAt s event id parent affected absent = record {
    at = record {
      listed = λ p found child listed. absurd (absent p found child listed);
      unlisted = λ p found not_listed. found;
    };
    others = λ j other. refl;
    records = refl;
    db = refl;
    counts = refl;
  }

  listed-OnlyAt :
      (s : GroupsState Db) (event : Event) (id parent_id : String) (affected : List String)
      (parent : Group)
      → load s.groups parent_id ≡ some parent
      → (parent_id == "") ≡ false
      → contains parent.children id ≡ true
      → OnlyAt s event id parent_id
          (record s {
            groups =
                store s.groups parent_id
                  (with_children parent (erase parent.children id) event.created_at);
          })
          (append_unique affected parent_id)
  listed-OnlyAt s event id parent_id affected parent found child here = record {
    at = record {
      listed = λ p found' child' here'.
          let same : parent ≡ p = cc (found, found') in
          (
            load-store_self s.groups parent_id _
                ∙ ap (λ p. some (with_children p (erase p.children id) event.created_at)) same,
            contains-append_unique affected parent_id,
          );
      unlisted = λ p found' absent.
          let same : parent ≡ p = cc (found, found') in
          cc (ap (λ p. contains p.children id) same, here, absent);
    };
    others = λ j other. elim other [
      | inl top ↦ cc (top, child)
      | inr not_parent ↦ load-store_other s.groups parent_id _ j not_parent
    ];
    records = refl;
    db = refl;
    counts = refl;
  }

  unfoldable pub GoesOn :
      (s : GroupsState Db) (event : Event) (id parent : String) → Phase Db → Type 0
  GoesOn s event id parent p =
      (s' : GroupsState Db) × (affected : List String) × (p ≡ goes_on s' affected)
      × OnlyAt s event id parent s' affected

  remove_parent_child-GoesOn :
      (s : GroupsState Db) (event : Event) (parent_id child_id : String) (affected : List String)
      → (parent_id == "") ≡ false
      → GoesOn s event child_id parent_id
          (note_parent affected (remove_parent_child s parent_id child_id event.created_at))
  unfolding remove_parent_child GoesOn
  remove_parent_child-GoesOn s event parent_id child_id affected child =
      elim (Option-cases (load s.groups parent_id)) [
        | inl missing ↦ rw missing (
          s,
          affected,
          refl,
          unlisted-OnlyAt s event child_id parent_id affected λ p found. cc (missing, found),
        )
        | inr (parent, e) ↦ elim (Bool-cases (contains parent.children child_id)) [
          | inl here ↦
              rw (e, here)
                (_, _, refl, listed-OnlyAt s event child_id parent_id affected parent e child here)
          | inr stranger ↦
              rw (e, stranger)
                (
                  s,
                  affected,
                  refl,
                  unlisted-OnlyAt s event child_id parent_id affected λ p found _ here.
                      let same : parent ≡ p = cc (e, found) in
                      cc (ap (λ p. contains p.children child_id) same, stranger, here),
                )
        ]
      ]

module _ (lib : NostrLib) {Db E : Type 0} (es : EventStore Db E) where
  pub unlink_parent-GoesOn :
      (s : GroupsState Db) (event : Event) (group : Group) (affected : List String)
      → GoesOn s event group.id group.parent (unlink_parent lib es s event group affected)
  unfolding unlink_parent
  unlink_parent-GoesOn s event group affected = elim (Bool-cases (group.parent == "")) [
    | inl top ↦
        unfold GoesOn in
        rw top (
          s,
          affected,
          refl,
          unlisted-OnlyAt s event group.id group.parent affected λ p found child. cc (top, child),
        )
    | inr child ↦ rw child (remove_parent_child-GoesOn s event group.parent group.id affected child)
  ]
