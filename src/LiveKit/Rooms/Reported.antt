-- ===== src/LiveKit/Rooms/Reported.antt =====
-- The participants that livekit.go reads off the server's answer, and the rooms that it makes.
use croissant.Base.{
  ◌≤◌, Bool, false, not, ◌||◌, Option, none, some, List, String, contains, any, count, ltb, ◌==◌,
  nat_eq, string_eq, ◌≡◌, inl, inr, arith, Bool-cases, eq_of_beq, ◌&&◌, contains-snoc, count-snoc,
  contains-count,
}
use croissant.Nostr.{NostrLib, PubKey}
use croissant.LiveKit.Rooms.{length, take, add_participant, read_participants}

abbrev pub is_key : Option PubKey → PubKey → Bool
is_key none pubkey = false
is_key (some key) pubkey = key == pubkey

contains-add_participant :
    (lib : NostrLib) (found : List PubKey) (o : Option PubKey) (pk : PubKey)
    → contains (add_participant lib found o) pk ≡ (contains found pk || is_key o pk)
contains-add_participant lib found none pk = ground arith
contains-add_participant lib found (some key) pk = elim (Bool-cases (contains found key)) [
  | inr new ↦ rw new (contains-snoc found key pk)
  | inl here ↦ elim (Bool-cases (key == pk)) [
    | inl same ↦ rw here (ground (arith, eq_of_beq key pk same))
    | inr other ↦ rw here (ground arith)
  ]
]

count-add_participant :
    (lib : NostrLib) (found : List PubKey) (o : Option PubKey)
    → ((pk : PubKey) → count pk found ≤ 1)
    → (pk : PubKey) → count pk (add_participant lib found o) ≤ 1
count-add_participant lib found none once pk = once pk
count-add_participant lib found (some key) once pk = elim (Bool-cases (contains found key)) [
  | inl here ↦ rw here (once pk)
  | inr new ↦ elim (Bool-cases (key == pk)) [
    | inl same ↦
        rw (new, count-snoc found key pk)
          (ground (arith, eq_of_beq key pk same, contains-count found key new))
    | inr other ↦ rw (new, count-snoc found key pk) (ground (arith, once pk))
  ]
]

module _ (lib : NostrLib) where
  -- The identity is the hexadecimal form of the key, with or without more.
  abbrev pub identifies : PubKey → String → Bool
  identifies pubkey identity =
      not (ltb (length identity) 64) && is_key (lib.pubkey_from_hex (take 64 identity)) pubkey

  contains-read_participants :
      (found : List PubKey) (ids : List String) (pk : PubKey)
      → contains (read_participants lib found ids) pk
        ≡ (contains found pk || any (identifies pk) ids)
  unfolding read_participants
  contains-read_participants found List.[] pk = ground arith
  contains-read_participants found (List.◌∷◌ identity ids) pk =
      elim (Bool-cases (ltb (length identity) 64)) [
        | inl short ↦ rw short (ground (arith, contains-read_participants found ids pk))
        | inr long ↦ rw long (
            ground (
              arith,
              contains-read_participants
                  (add_participant lib found (lib.pubkey_from_hex (take 64 identity))) ids pk,
              contains-add_participant lib found (lib.pubkey_from_hex (take 64 identity)) pk,
            ))
      ]

  count-read_participants :
      (found : List PubKey) (ids : List String)
      → ((pk : PubKey) → count pk found ≤ 1)
      → (pk : PubKey) → count pk (read_participants lib found ids) ≤ 1
  unfolding read_participants
  count-read_participants found List.[] once = once
  count-read_participants found (List.◌∷◌ identity ids) once =
      elim (Bool-cases (ltb (length identity) 64)) [
        | inl short ↦ rw short (count-read_participants found ids once)
        | inr long ↦ rw long (
            count-read_participants
              (add_participant lib found (lib.pubkey_from_hex (take 64 identity))) ids
              (count-add_participant lib found _ once))
      ]

  -- The participants are the keys that some identity names, each once.
  pub read_participants_lem :
      (ids : List String) (pk : PubKey)
      → (contains (read_participants lib List.[] ids) pk ≡ any (identifies pk) ids)
        × (count pk (read_participants lib List.[] ids) ≤ 1)
  read_participants_lem ids pk = (
    contains-read_participants List.[] ids pk,
    count-read_participants List.[] ids (λ pk. omega arith) pk,
  )
