-- ===== src/Write/Presence.antt =====
-- presence.go: whether a key has a profile on the relays that a setting names. `pool` is the answer of
-- those relays (QuerySingle found an event), `lru` the cache library; both are parameters.
use croissant.Base.{Bool, true, Option, none, some, List, String, is_empty, if◌then◌else◌}
use croissant.Nostr.{PubKey}

-- The settings of global/settings.go that the checks read.
pub record Settings : Type 0 where
  pub relay_public_key : PubKey
  pub owner_pub_key : PubKey
  pub create_group_presence_relays : List String
  pub free_transit_presence_relays : List String
  pub gift_wraps_enabled : Bool
  pub sender_presence_relays : List String

pub data CheckType : Type 0 where
  free_transit group_create gift_wrap : CheckType

-- A read may change the order in which entries leave the cache.
pub record Lru (C : Type 0) : Type 0 where
  pub get : C → PubKey → Option Bool × C
  pub add : C → PubKey → Bool → C

pub record Caches (C : Type 0) : Type 0 where
  pub free_transit_presence_cache : C
  pub gift_wrap_presence_cache : C

abbrev pub Pool : Type 0
Pool = List String → PubKey → Bool

module _ {C : Type 0} (lru : Lru C) (settings : Settings) (pool : Pool) where
  -- What follows a miss; `save` writes the cache that the check uses, if any.
  abbrev ask : List String → PubKey → Caches C → (Bool → Caches C) → Bool × Caches C
  ask relays pk unchanged save =
      if is_empty relays then (true, unchanged) else (pool relays pk, save (pool relays pk))

  abbrev on_transit : PubKey → Caches C → Option Bool × C → Bool × Caches C
  on_transit pk caches (some v, c) = (v, record caches { free_transit_presence_cache = c })
  on_transit pk caches (none, c) =
      ask settings.free_transit_presence_relays pk
        (record caches { free_transit_presence_cache = c })
        λ present. record caches { free_transit_presence_cache = lru.add c pk present }

  abbrev on_gift_wrap : PubKey → Caches C → Option Bool × C → Bool × Caches C
  on_gift_wrap pk caches (some v, c) = (v, record caches { gift_wrap_presence_cache = c })
  on_gift_wrap pk caches (none, c) =
      ask settings.sender_presence_relays pk (record caches { gift_wrap_presence_cache = c })
        λ present. record caches { gift_wrap_presence_cache = lru.add c pk present }

  unfoldable pub has_presence : Caches C → PubKey → CheckType → Bool × Caches C
  has_presence caches pk free_transit =
      on_transit pk caches (lru.get caches.free_transit_presence_cache pk)
  has_presence caches pk gift_wrap =
      on_gift_wrap pk caches (lru.get caches.gift_wrap_presence_cache pk)
  has_presence caches pk group_create =
      ask settings.create_group_presence_relays pk caches (λ present. caches)
