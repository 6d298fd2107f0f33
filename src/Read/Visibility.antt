-- ===== src/Read/Visibility.antt =====
-- Which events hideEventFromReader of query.go keeps from a reader, and what query yields.
use croissant.Base.{
  ℕ, Bool, true, false, ◌&&◌, none, some, List, [], ◌∷◌, All, contains, ◌==◌, nat_eq, string_eq,
  if◌then◌else◌, ◌≡◌, ◌↔◌, ◌⊎◌, inl, inr, arith, refl, Option-cases, Bool-cases,
}
use croissant.Nostr.{NostrLib, EventStore, Event, Filter, PubKey}
use croissant.Nostr.Kinds
use croissant.Verdict.{accept}
use croissant.Groups.{Group, GroupsState, any_of_these_is_a_member}
use croissant.Groups.Tags.{get_group_from_event}
use croissant.Read.{
  requested_group_ids, is_nil, hide_in_group, hide_event_from_reader, visible, query, max_int,
  reject_request,
}

-- A filter that names no group and no event.
abbrev pub is_broad : Filter → Bool
is_broad filter = is_nil (requested_group_ids filter) && is_nil filter.ids

-- The reasons for which an event of the live group `g` is hidden.
pub data Hides (filter : Filter) (evt : Event) (authed : List PubKey) (g : Group) : Type 0 where
  hidden_group : g.hidden ≡ true → is_broad filter ≡ true → Hides filter evt authed g
  hidden_metadata :
      g.hidden ≡ true
      → g.private ≡ true
      → evt.kind ≡ Kinds.group_metadata
      → any_of_these_is_a_member g authed ≡ false
      → Hides filter evt authed g

module _ (filter : Filter) (evt : Event) (authed : List PubKey) (g : Group) where
  hide_in_group-Hides : hide_in_group filter evt authed g ≡ true → Hides filter evt authed g
  unfolding hide_in_group
  hide_in_group-Hides h = elim (Bool-cases (g.hidden && is_broad filter)) [
    | inl broad ↦ hidden_group (ground arith) (ground arith)
    | inr narrow ↦ hidden_metadata (ground arith) (ground arith) (ground arith) (ground arith)
  ]

  Hides-hide_in_group : Hides filter evt authed g → hide_in_group filter evt authed g ≡ true
  unfolding hide_in_group
  Hides-hide_in_group (hidden_group a b) = ground arith
  Hides-hide_in_group (hidden_metadata a b c d) = ground arith

shown :
    (filter : Filter) (evt : Event) (authed : List PubKey) (g : Group)
    → g.private ≡ true
    → (g.hidden && is_broad filter) ≡ false
    → (evt.kind ≡ Kinds.group_metadata → ⊥)
    → hide_in_group filter evt authed g ≡ false
unfolding hide_in_group
shown filter evt authed g private narrow other = ground arith

module _ (lib : NostrLib) {Db : Type 0} (s : GroupsState Db) where
  -- An event is hidden from a reader exactly when it is no profile (kind 0) and either its tags lead to
  -- no live group, or its group is hidden and the filter names neither groups nor ids, or it is the
  -- metadata of a group that is both hidden and private and no authenticated key is a member.
  pub hide_event_iff :
      (filter : Filter) (evt : Event) (authed : List PubKey)
      → (hide_event_from_reader lib s filter evt authed ≡ true) ↔ (
          (evt.kind ≡ Kinds.profile_metadata → ⊥)
          × ((get_group_from_event lib s evt ≡ none)
              ⊎ ((g : Group) × (get_group_from_event lib s evt ≡ some g)
                  × Hides filter evt authed g)))
  unfolding hide_event_from_reader
  hide_event_iff filter evt authed = (
    λ h. elim (Bool-cases (evt.kind == Kinds.profile_metadata)) [
      | inl profile ↦ cc (rw profile at h)
      | inr other ↦ (
        λ e. ground (arith, other),
        elim (Option-cases (get_group_from_event lib s evt)) [
          | inl gone ↦ inl gone
          | inr (g, found) ↦ inr (
            g,
            found,
            hide_in_group-Hides filter evt authed g
                (rw (other, found, hide_event_from_reader) at h),
          )
        ],
      )
    ],
    λ (other, why). elim (Bool-cases (evt.kind == Kinds.profile_metadata)) [
      | inl profile ↦ absurd (other (ground arith))
      | inr _ ↦ elim why [
        | inl gone ↦ ground (arith, gone)
        | inr (g, found, hides) ↦
            ground (arith, found, Hides-hide_in_group filter evt authed g hides)
      ]
    ],
  )

  -- A private group keeps its contents from nobody at this point: any event of it but its metadata is
  -- shown to every reader, member or not, authenticated or not, unless the group is hidden too and the
  -- filter is broad.
  pub private_contents_shown :
      (filter : Filter) (evt : Event) (authed : List PubKey) (g : Group)
      → get_group_from_event lib s evt ≡ some g
      → g.private ≡ true
      → (g.hidden && is_broad filter) ≡ false
      → (evt.kind ≡ Kinds.group_metadata → ⊥)
      → hide_event_from_reader lib s filter evt authed ≡ false
  unfolding hide_event_from_reader
  private_contents_shown filter evt authed g e private narrow other =
      ground (arith, e, shown filter evt authed g private narrow other)

  -- What a broad query may show: a profile, or an event of a live group that is not hidden.
  pub data IsOpen (evt : Event) : Type 0 where
    profile : evt.kind ≡ Kinds.profile_metadata → IsOpen evt
    listed : (g : Group) → get_group_from_event lib s evt ≡ some g → g.hidden ≡ false → IsOpen evt

  broad_shows :
      (filter : Filter) (authed : List PubKey) (evt : Event)
      → is_broad filter ≡ true
      → hide_event_from_reader lib s filter evt authed ≡ false
      → IsOpen evt
  unfolding hide_event_from_reader
  broad_shows filter authed evt broad shows =
      elim (Bool-cases (evt.kind == Kinds.profile_metadata)) [
        | inl p ↦ profile (ground arith)
        | inr other ↦ elim (Option-cases (get_group_from_event lib s evt)) [
          | inl gone ↦ cc (rw (other, gone, hide_event_from_reader) at shows)
          | inr (g, found) ↦
              listed g found (not_hidden g (rw (other, found, hide_event_from_reader) at shows))
        ]
      ]
    where
      not_hidden : (g : Group) → hide_in_group filter evt authed g ≡ false → g.hidden ≡ false
      not_hidden g h = elim (Bool-cases g.hidden) [
        | inl hides ↦ cc (Hides-hide_in_group filter evt authed g (hidden_group hides broad))
        | inr open_group ↦ open_group
      ]

  visible-IsOpen :
      (filter : Filter) (authed : List PubKey) (evts : List Event)
      → is_broad filter ≡ true
      → All IsOpen (visible lib s filter authed evts)
  unfolding visible
  visible-IsOpen filter authed [] broad = tt
  visible-IsOpen filter authed (evt ∷ evts) broad =
      let rest = visible-IsOpen filter authed evts broad in
      elim (Bool-cases (hide_event_from_reader lib s filter evt authed)) [
        | inl hides ↦ rw hides rest
        | inr shows ↦ rw shows (broad_shows filter authed evt broad shows, rest)
      ]

  -- A query that names neither groups nor event ids, and asks for no gift-wraps, yields only profiles
  -- and events of live groups that are not hidden, whoever asks.
  pub broad_query-IsOpen :
      {E : Type 0} (es : EventStore Db E) (db : Db) (authed : List PubKey) (negentropy : Bool)
      (filter : Filter)
      → is_broad filter ≡ true
      → contains filter.kinds Kinds.gift_wrap ≡ false
      → All IsOpen (query lib s es db authed negentropy filter)
  unfolding query
  broad_query-IsOpen es db authed negentropy filter broad plain =
      elim (Bool-cases (filter.search == "")) [
        | inl no_search ↦
            rw (plain, no_search)
              (visible-IsOpen filter authed
                (es.query_events db filter (if negentropy then max_int lib s else 1500)) broad)
        | inr searches ↦ rw (plain, searches) tt
      ]

  -- The contents of a private group: its events, group metadata aside.
  pub data IsPrivateContent (evt : Event) : Type 0 where
    content_of :
        (g : Group)
        → get_group_from_event lib s evt ≡ some g
        → g.private ≡ true
        → (evt.kind ≡ Kinds.group_metadata → ⊥)
        → IsPrivateContent evt

  unfiltered :
      (filter : Filter) (authed : List PubKey) (evts : List Event)
      → is_broad filter ≡ false
      → All IsPrivateContent evts
      → visible lib s filter authed evts ≡ evts
  unfolding visible
  unfiltered filter authed [] narrow all = refl
  unfiltered filter authed (evt ∷ evts) narrow (content_of g e private other, all) = ground (
    arith,
    private_contents_shown filter evt authed g e private (ground arith) other,
    unfiltered filter authed evts narrow all,
  )

  -- A request for event ids, with no group, no search and no gift-wraps, is accepted from a client that
  -- has not authenticated, and where the store finds events of private groups under it the query yields
  -- all of them, filtering nothing out.
  pub ids_query_unfiltered :
      {E : Type 0} (es : EventStore Db E) (db : Db) (negentropy : Bool) (filter : Filter)
      {ids : List ℕ}
      → filter.ids ≡ some ids
      → requested_group_ids filter ≡ none
      → filter.search ≡ ""
      → contains filter.kinds Kinds.gift_wrap ≡ false
      → let evts = es.query_events db filter (if negentropy then max_int lib s else 1500) in
        All IsPrivateContent evts
        → (reject_request lib s [] filter ≡ accept)
          × (query lib s es db [] negentropy filter ≡ evts)
  unfolding query reject_request
  ids_query_unfiltered es db negentropy filter i nowhere plain no_wraps all =
      let no_search : (filter.search == "") ≡ true = rw plain refl in
      (
        rw (nowhere, no_search, no_wraps) refl,
        rw (no_search, no_wraps)
            (unfiltered filter []
              (es.query_events db filter (if negentropy then max_int lib s else 1500))
              (rw (nowhere, i) refl) all),
      )
