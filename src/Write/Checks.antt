-- ===== src/Write/Checks.antt =====
-- What the single checks of reject_event.go let through.
use croissant.Base.{
  Bool, true, false, ◌||◌, none, some, List, [], ◌∷◌, String, any, contains, All, append_unique,
  is_empty, ltb, nat_eq, string_eq, ◌≡◌, ◌↔◌, ◌≤◌, ◌⊎◌, inl, inr, arith, refl, Option-cases,
  Bool-cases, any-append_unique,
}
use croissant.Nostr.{NostrLib, EventStore, Event, EventId, PubKey, Kind}
use croissant.Text.{byte_len}
use croissant.Verdict.{Verdict, accept, reject, or_else}
use croissant.Groups.{Group}
use croissant.Write.Moderation.{roles_of, has_primary_role, authors_of, targets_of, check_delete}
use croissant.Write.{is_recent, check_previous, check_supported_kinds}

pub or_else_iff : (v w : Verdict) → (or_else v w ≡ accept) ↔ ((v ≡ accept) × (w ≡ accept))
or_else_iff accept w = (λ h. (refl, h), λ h. h.1)
or_else_iff (reject msg) w = (λ h. cc, λ h. cc (h.0))

-- A "previous" tag passes exactly when each of its values is at most 64 bytes long and begins the
-- hexadecimal form of one of the group's recent ids.
pub check_previous_iff :
    (lib : NostrLib) (group : Group) (values : List String)
    → (check_previous lib group values ≡ accept)
      ↔ All (λ chars. (byte_len chars ≤ 64) × (is_recent lib group chars ≡ true)) values
unfolding check_previous
check_previous_iff lib group [] = (λ h. tt, λ h. refl)
check_previous_iff lib group (chars ∷ rest) = elim (Bool-cases (ltb 64 (byte_len chars))) [
  | inl long ↦ (λ h. cc (rw long at h), λ h. absurd (ground (arith, h.0.0, long)))
  | inr short ↦ elim (Bool-cases (is_recent lib group chars)) [
    | inl recent ↦ (
      λ h. (
        (ground (arith, short), recent),
        (check_previous_iff lib group rest).0 (rw (short, recent) at h),
      ),
      λ h. rw (short, recent) ((check_previous_iff lib group rest).1 h.1),
    )
    | inr unknown ↦ (λ h. cc (rw (short, unknown) at h), λ h. cc (h.0.1, unknown))
  ]
]

empty-contains :
    (kinds : List Kind) (kind : Kind) → is_empty kinds ≡ true → contains kinds kind ≡ false
empty-contains [] kind h = refl
empty-contains (k ∷ kinds) kind h = cc

-- An event passes the check of supported kinds exactly when the group lists none, or lists its kind.
pub check_supported_kinds_iff :
    (group : Group) (kind : Kind)
    → (check_supported_kinds group kind ≡ accept) ↔ (
        (group.supported_kinds ≡ none)
        ⊎ ((kinds : List Kind) × (group.supported_kinds ≡ some kinds)
            × (contains kinds kind ≡ true)))
unfolding check_supported_kinds
check_supported_kinds_iff group kind = elim (Option-cases group.supported_kinds) [
  | inl all_kinds ↦ (λ h. inl all_kinds, λ h. ground arith)
  | inr (kinds, e) ↦
      (λ h. inr (kinds, e, ground arith), λ h. ground (arith, empty-contains kinds kind))
]

module _ {Db E : Type 0} (es : EventStore Db E) (db : Db) (group : Group) where
  -- None of these events is an admin's.
  abbrev pub NoAdmins : List Event → Type 0
  NoAdmins = All λ evt. has_primary_role (roles_of group evt.pub_key) ≡ false

  abbrev is_admin : PubKey → Bool
  is_admin author = has_primary_role (roles_of group author)

  any-authors_of :
      (evts : List Event) (authors : List PubKey)
      → any is_admin (authors_of evts authors)
        ≡ (any is_admin authors || any (λ evt. is_admin evt.pub_key) evts)
  any-authors_of [] authors = ground arith
  any-authors_of (evt ∷ evts) authors = ground (
    arith,
    any-authors_of evts (append_unique authors evt.pub_key),
    any-append_unique is_admin authors evt.pub_key,
  )

  NoAdmins-iff :
      (evts : List Event) → (any (λ evt. is_admin evt.pub_key) evts ≡ false) ↔ NoAdmins evts
  NoAdmins-iff [] = (λ h. tt, λ h. refl)
  NoAdmins-iff (evt ∷ evts) = (
    λ h. (ground arith, (NoAdmins-iff evts).0 (ground arith)),
    λ h. ground (arith, (NoAdmins-iff evts).1 h.1),
  )

  -- A deletion of events passes exactly when the store finds a target, and the author of the deletion
  -- is an admin or none of the targets found is by an admin of the group. Events by moderators are not
  -- spared.
  pub check_delete_iff :
      (is_primary_role : Bool) (ids : List EventId)
      → (check_delete es db group is_primary_role ids ≡ accept) ↔ (
          (is_empty (targets_of es db ids) ≡ false)
          × ((is_primary_role ≡ true) ⊎ NoAdmins (targets_of es db ids)))
  unfolding check_delete
  check_delete_iff is_primary_role ids =
      let none_by_admin = NoAdmins-iff (targets_of es db ids) in
      let authors = any-authors_of (targets_of es db ids) [] in
      (
        λ h. (
          ground arith,
          elim (Bool-cases is_primary_role) [
            | inl admin ↦ inl admin
            | inr moderator ↦ inr (none_by_admin.0 (ground (arith, authors)))
          ],
        ),
        λ (found, why). elim why [
          | inl admin ↦ ground arith
          | inr clean ↦ ground (arith, authors, none_by_admin.1 clean)
        ],
      )
