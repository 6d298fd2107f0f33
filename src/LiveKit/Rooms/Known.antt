-- ===== src/LiveKit/Rooms/Known.antt =====
-- The rooms that ensureLiveKitRoom of livekit.go knows.
use croissant.Base.{
  true, false, ◌||◌, Option, none, some, List, String, contains, ◌==◌, nat_eq, string_eq, ◌≡◌, inl,
  inr, arith, Bool-cases, eq_self,
}
use croissant.Groups.{Group}
use croissant.LiveKit.{LiveKitSettings}
use croissant.LiveKit.Rooms.{
  Http, Reply, no_reply, replied, Ended, fails, returns, post, room_made, ensure_live_kit_room,
}

module _ {Net : Type 0} (http : Http Net) where
  room_made-contains :
      (rooms : List String) (room : String) (net : Net) (answer : Option (Net × Reply))
      → (room_made http rooms room answer net).1 ≡ returns tt
      → contains (room_made http rooms room answer net).0.0 room ≡ true
  room_made-contains rooms room net none h = cc
  room_made-contains rooms room net (some (net', no_reply)) h = cc
  room_made-contains rooms room net (some (net', replied status identities)) h =
      elim (Bool-cases (status == 200 || status == 409)) [
        | inl made ↦ rw made (ground (arith, eq_self room))
        | inr other ↦ cc (rw other at h)
      ]

  ensure_known :
      (settings : LiveKitSettings) (group : Group) (rooms : List String) (net : Net)
      → group.live_kit ≡ true
      → contains rooms group.id ≡ true
      → ensure_live_kit_room http settings group (rooms, net) ≡ ((rooms, net), returns tt)
  unfolding ensure_live_kit_room
  ensure_known settings group rooms net calls known = simp (calls, known)

  abbrev made : LiveKitSettings → Group → List String → Net → (List String × Net) × Ended Unit
  made settings group rooms net =
      room_made http rooms group.id
        (post http settings "/twirp/livekit.RoomService/CreateRoom" "name" group.id net) net

  ensure_new :
      (settings : LiveKitSettings) (group : Group) (rooms : List String) (net : Net)
      → group.live_kit ≡ true
      → contains rooms group.id ≡ false
      → ensure_live_kit_room http settings group (rooms, net) ≡ made settings group rooms net
  unfolding ensure_live_kit_room
  ensure_new settings group rooms net calls new = simp (calls, new)

  ensure_silent :
      (settings : LiveKitSettings) (group : Group) (rooms : List String) (net : Net)
      → group.live_kit ≡ false
      → ensure_live_kit_room http settings group (rooms, net) ≡ ((rooms, net), fails)
  unfolding ensure_live_kit_room
  ensure_silent settings group rooms net silent = simp silent

  contains-ensure_live_kit_room :
      (settings : LiveKitSettings) (group : Group) (rooms : List String) (net : Net)
      → (ensure_live_kit_room http settings group (rooms, net)).1 ≡ returns tt
      → (group.live_kit ≡ true)
        × (contains (ensure_live_kit_room http settings group (rooms, net)).0.0 group.id ≡ true)
  contains-ensure_live_kit_room settings group rooms net h = elim (Bool-cases group.live_kit) [
    | inr silent ↦ cc (rw (ensure_silent settings group rooms net silent) at h)
    | inl calls ↦ elim (Bool-cases (contains rooms group.id)) [
      | inl known ↦ (calls, rw (ensure_known settings group rooms net calls known) known)
      | inr new ↦ (
        calls,
        rw (ensure_new settings group rooms net calls new) (
            room_made-contains rooms group.id net
              (post http settings "/twirp/livekit.RoomService/CreateRoom" "name" group.id net)
              (rw (ensure_new settings group rooms net calls new) at h)),
      )
    ]
  ]

  -- A room that is ensured is of a group with calls, and it is not asked for again: whatever the
  -- network is by then, the next call finds it known and sends nothing.
  pub ensure_live_kit_room_once :
      (settings : LiveKitSettings) (group : Group) (rooms : List String) (net : Net)
      → (ensure_live_kit_room http settings group (rooms, net)).1 ≡ returns tt
      → let rooms' = (ensure_live_kit_room http settings group (rooms, net)).0.0 in
        (group.live_kit ≡ true)
        × ((later : Net)
            → ensure_live_kit_room http settings group (rooms', later)
              ≡ ((rooms', later), returns tt))
  ensure_live_kit_room_once settings group rooms net h =
      let (calls, known) = contains-ensure_live_kit_room settings group rooms net h in
      (calls, λ later. ensure_known settings group _ later calls known)
