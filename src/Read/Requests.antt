-- ===== src/Read/Requests.antt =====
-- When rejectRequest of state.go lets a request through.
use croissant.Base.{
  ℕ, Bool, true, false, ◌&&◌, ◌||◌, not, some, List, [], ◌∷◌, String, load, length, contains, ltb,
  ◌==◌, nat_eq, string_eq, ◌≡◌, ◌≢◌, ◌↔◌, ◌≤◌, refl, arith, Bool-cases, inl, inr, Option-cases, All,
  ap, beq_false_of_ne,
}
use croissant.Nostr.{NostrLib, Filter, PubKey}
use croissant.Nostr.Kinds
use croissant.Verdict.{accept, Verdict-cases}
use croissant.Groups.{Group, GroupsState, any_of_these_is_a_member}
use croissant.Read.{
  requested_group_ids, elements, authed_are_the_same_as_p_tagged, check_group, check_groups,
  check_gift_wraps, reject_request,
}

abbrev bad_search : String → ℕ → Bool
bad_search text n = not (text == "") && (ltb 5 n || n == 0)

search_bounds :
    (text : String) (n : ℕ) → (bad_search text n ≡ false) ↔ (text ≢ "" → (1 ≤ n) × (n ≤ 5))
search_bounds text n = (
  λ h searches. ground (arith, beq_false_of_ne text "" searches),
  λ bounded. elim (Bool-cases (text == "")) [
    | inl plain ↦ rw plain refl
    | inr searches ↦
        ground (arith, bounded (λ e. ground (arith, ap (λ t. t == "") e, searches)), searches)
  ],
)

module _ (lib : NostrLib) {Db : Type 0} (s : GroupsState Db) (authed : List PubKey) where
  -- The group of the id, where it is live and private, has an authenticated member.
  abbrev pub IsReadable : String → Type 0
  IsReadable id =
      (g : Group)
      → load s.groups id ≡ some g
      → g.private ≡ true
      → any_of_these_is_a_member g authed ≡ true

  pub record IsGranted (filter : Filter) : Type 0 where
    pub wraps_to_authed :
        contains filter.kinds Kinds.gift_wrap ≡ true
        → (authed ≢ [])
          × (authed_are_the_same_as_p_tagged lib.pubkey_hex authed (elements (load filter.tags "p"))
              ≡ true)
    pub search_bounded :
        filter.search ≢ ""
        → (1 ≤ length (elements (requested_group_ids filter)))
          × (length (elements (requested_group_ids filter)) ≤ 5)
    pub groups_readable : All IsReadable (elements (requested_group_ids filter))

  nobody : (g : Group) → authed ≡ [] → any_of_these_is_a_member g authed ≡ false
  unfolding any_of_these_is_a_member
  nobody g e = rw e

  check_found_iff :
      (g : Group)
      → (check_group authed (some g) ≡ accept)
        ↔ (g.private ≡ true → any_of_these_is_a_member g authed ≡ true)
  check_found_iff g = (λ h p. ground arith, λ h. ground (arith, nobody g))

  check_group_iff : (id : String) → (check_group authed (load s.groups id) ≡ accept) ↔ IsReadable id
  check_group_iff id = elim (Option-cases (load s.groups id)) [
    | inl gone ↦ rw gone (λ h g e p. cc, λ h. refl)
    | inr (g, found) ↦ (
      λ h g' e p. ground (arith, (check_found_iff g).0 (rw found at h), found, e),
      λ h. rw found ((check_found_iff g).1 (h g found)),
    )
  ]

  check_groups_iff :
      (ids : List String) → (check_groups lib s authed ids ≡ accept) ↔ All IsReadable ids
  unfolding check_groups
  check_groups_iff [] = (λ h. tt, λ h. refl)
  check_groups_iff (id ∷ ids) = elim (Verdict-cases (check_group authed (load s.groups id))) [
    | inl ok ↦ (
      λ h. ((check_group_iff id).0 ok, (check_groups_iff ids).0 (rw ok at h)),
      λ h. rw ok ((check_groups_iff ids).1 h.1),
    )
    | inr (msg, no_way) ↦ (λ h. cc (rw no_way at h), λ h. cc ((check_group_iff id).1 h.0, no_way))
  ]

  check_gift_wraps_iff :
      (filter : Filter)
      → (check_gift_wraps lib s authed filter ≡ accept) ↔ (
          contains filter.kinds Kinds.gift_wrap ≡ true
          → (authed ≢ [])
            × (authed_are_the_same_as_p_tagged lib.pubkey_hex authed
                  (elements (load filter.tags "p"))
                ≡ true))
  unfolding check_gift_wraps
  check_gift_wraps_iff filter = (λ h wraps. (λ e. ground arith, ground arith), λ h. ground arith)

  -- rejectRequest lets a request through exactly when: a request that asks for gift-wraps comes from an
  -- authenticated client and its p tags pass the test against the authenticated keys; a search names one
  -- to five groups; and each live private group that is named has one of the authenticated keys as a
  -- member.
  pub reject_request_iff :
      (filter : Filter) → (reject_request lib s authed filter ≡ accept) ↔ IsGranted filter
  unfolding reject_request
  reject_request_iff filter =
      let ids = elements (requested_group_ids filter) in
      let bounded = search_bounds filter.search (length ids) in
      elim (Verdict-cases (check_gift_wraps lib s authed filter)) [
        | inr (msg, no_way) ↦ (
          λ h. cc (rw no_way at h),
          λ g. cc ((check_gift_wraps_iff filter).1 g.wraps_to_authed, no_way),
        )
        | inl ok ↦ elim (Bool-cases (bad_search filter.search (length ids))) [
          | inl bad ↦ (λ h. cc (rw (ok, bad) at h), λ g. cc (bounded.1 g.search_bounded, bad))
          | inr good ↦ (
            λ h. record {
              wraps_to_authed = (check_gift_wraps_iff filter).0 ok;
              search_bounded = bounded.0 good;
              groups_readable = (check_groups_iff ids).0 (rw (ok, good) at h);
            },
            λ g. rw (ok, good) ((check_groups_iff ids).1 g.groups_readable),
          )
        ]
      ]
