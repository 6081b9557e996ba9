-- ===== src/Player.antt =====
-- pkg/sync/player_state.go: `PlayerStateManager` over the grid of pkg/aoi/aoi.go. A player is a pointer
-- into a heap, which the maps and the grid hold; positions are values of the type of vectors, and the
-- value of an attribute and a callback are opaque. A panic of the grid is taken as its error, and times
-- are left out.
pub mod Service
pub mod Laws
pub mod Listed
pub mod Steps
pub mod Ghosts
mod Tests
use Prim.Native.Nat.{bit_or}
use mmo_server.Common.{
  ℕ, suc, ◌+◌, Bool, true, false, List, [], ◌∷◌, ◌++◌, Option, none, some, ite, or_empty,
  if◌then◌else◌, Str, Str_discrete, ℕ_discrete, Dict, str_key, lookup, insert, erase,
}
use mmo_server.Aoi.{
  Float, Entity, AoiManager, new_aoi_manager, add_entity, remove_entity, update_entity,
}
use mmo_server.Aoi.Query.{get_nearby_players}

pub record Vector3 (F : Type 0) : Type 0 where
  pub x : F
  pub y : F
  pub z : F

pub record PlayerState (F V : Type 0) : Type 0 where
  pub id : Str
  pub position : Vector3 F
  pub velocity : Vector3 F
  pub rotation : F
  pub attributes : Dict Str V
  pub update_mask : ℕ

pub record PlayerStateManager (F V : Type 0) : Type 0 where
  pub heap : ℕ → PlayerState F V
  pub fresh : ℕ
  pub players : Dict Str ℕ
  pub subscribers : Dict Str (List Str)
  pub callbacks : Dict Str ℕ
  pub aoi_manager : AoiManager F

-- What `notifySubscribers` does: whom it names in the log, and the callbacks that it calls, with the
-- player's ID and state.
pub record Notice : Type 0 where
  pub subscriber_ids : List Str
  pub called : Dict Str ℕ
  pub player_id : Str
  pub player : Option ℕ

abbrev pub update_position : ℕ
update_position = 1

abbrev pub update_velocity : ℕ
update_velocity = 2

abbrev pub update_rotation : ℕ
update_rotation = 4

abbrev pub update_attributes : ℕ
update_attributes = 8

unfoldable pub contains? : Str → List Str → Bool
contains? id [] = false
contains? id (s ∷ subs) = let rest = contains? id subs in ite (Str_discrete s id) true rest

-- The loop that keeps every ID but one.
unfoldable pub without : Str → List Str → List Str
without id [] = []
without id (s ∷ subs) = let rest = without id subs in ite (Str_discrete s id) rest (s ∷ rest)

unfoldable pub forget : Str → Dict Str (List Str) → Dict Str (List Str)
unfolding without
forget id [] = []
forget id ((other, subs) ∷ m) = (other, without id subs) ∷ forget id m

abbrev origin : {F : Type 0} → F → Vector3 F
origin zero = record { x = zero; y = zero; z = zero }

-- A state, and what is done about it; `none` is the error that there is no such player.
abbrev pub Update : Type 0 → Type 0 → Type 0
Update F V = PlayerStateManager F V × Option Notice

module _ {F V : Type 0} where
  -- The entity that the grid sees in a player; zero stands for the type of players.
  abbrev pub as_entity : ℕ → PlayerState F V → Entity F
  as_entity p st = record {
    id = st.id;
    x = st.position.x;
    y = st.position.y;
    z = st.position.z;
    type_id = 0;
    self = p;
  }

  abbrev pub new_player : F → Str → PlayerState F V
  new_player zero id = record {
    id = id;
    position = origin zero;
    velocity = origin zero;
    rotation = zero;
    attributes = [];
    update_mask = 0;
  }

  -- Over an empty heap, with a width of the cells that is 1000 divided by 20.
  abbrev pub new_player_state_manager : (ℕ → PlayerState F V) → F → F → F → PlayerStateManager F V
  new_player_state_manager heap zero thousand width = record {
    heap = heap;
    fresh = 0;
    players = [];
    subscribers = [];
    callbacks = [];
    aoi_manager = new_aoi_manager zero thousand zero thousand width 20;
  }

  abbrev pub positioned : PlayerState F V → Vector3 F → PlayerState F V
  positioned st position = record st {
    position = position;
    update_mask = bit_or st.update_mask update_position;
  }

  unfoldable pub write : ℕ → PlayerState F V → PlayerStateManager F V → PlayerStateManager F V
  write p st m = record m { heap = λ q. ite (ℕ_discrete p q) st (m.heap q) }

  abbrev pub get_player : PlayerStateManager F V → Str → Option ℕ
  get_player m id = lookup id m.players

  unfoldable pub notify_subscribers : PlayerStateManager F V → Str → Notice
  notify_subscribers m id = record {
    subscriber_ids = or_empty (lookup id m.subscribers);
    called = m.callbacks;
    player_id = id;
    player = lookup id m.players;
  }

  abbrev pub notified : PlayerStateManager F V → Str → Update F V
  notified m id = (m, some (notify_subscribers m id))

  unfoldable pub update_player_velocity : PlayerStateManager F V → Str → Vector3 F → Update F V
  unfolding write notify_subscribers
  update_player_velocity m id velocity = elim (lookup id m.players) [
    | none ↦ (m, none)
    | some p ↦
        let st = m.heap p in
        notified
          (write p
            (record st { velocity = velocity; update_mask = bit_or st.update_mask update_velocity })
            m)
          id
  ]

  unfoldable pub update_player_rotation : PlayerStateManager F V → Str → F → Update F V
  unfolding write notify_subscribers
  update_player_rotation m id rotation = elim (lookup id m.players) [
    | none ↦ (m, none)
    | some p ↦
        let st = m.heap p in
        notified
          (write p
            (record st { rotation = rotation; update_mask = bit_or st.update_mask update_rotation })
            m)
          id
  ]

  unfoldable pub update_player_attribute : PlayerStateManager F V → Str → Str → V → Update F V
  unfolding write notify_subscribers
  update_player_attribute m id key value = elim (lookup id m.players) [
    | none ↦ (m, none)
    | some p ↦
        let st = m.heap p in
        notified
          (write p
            (record st {
              attributes = insert key value st.attributes;
              update_mask = bit_or st.update_mask update_attributes;
            })
            m)
          id
  ]

  -- `SubscribeToPlayer`; `false` is the error that there is no such target.
  unfoldable pub subscribe_to_player :
      PlayerStateManager F V → Str → Str → PlayerStateManager F V × Bool
  unfolding contains?
  subscribe_to_player m id target = elim (lookup target m.players) [
    | none ↦ (m, false)
    | some p ↦
        let subs = or_empty (lookup target m.subscribers) in
        (
          if contains? id subs
              then m
              else record m { subscribers = insert target (subs ++ (id ∷ [])) m.subscribers },
          true,
        )
  ]

  unfoldable pub unsubscribe_from_player :
      PlayerStateManager F V → Str → Str → PlayerStateManager F V × Bool
  unfolding without
  unsubscribe_from_player m id target = elim (lookup target m.subscribers) [
    | none ↦ (m, false)
    | some subs ↦ (record m { subscribers = insert target (without id subs) m.subscribers }, true)
  ]

  unfoldable pub register_callback : PlayerStateManager F V → Str → ℕ → PlayerStateManager F V
  register_callback m name callback = record m { callbacks = insert name callback m.callbacks }

  unfoldable pub unregister_callback : PlayerStateManager F V → Str → PlayerStateManager F V
  unregister_callback m name = record m { callbacks = erase name m.callbacks }

-- An error of the grid is only logged.
abbrev pub or_keep : {A : Type 0} → A → Option A → A
or_keep m none = m
or_keep m (some m') = m'

module _ {F V : Type 0} (fl : Float F) where
  -- `RegisterPlayer`, with the pointer that it returns.
  abbrev pub registered : F → PlayerStateManager F V → Str → PlayerStateManager F V
  registered zero m id =
      let p = m.fresh in
      let st = new_player zero id in
      record (write p st m) {
        fresh = p + 1;
        players = insert id p m.players;
        subscribers = insert id [] m.subscribers;
        aoi_manager = or_keep m.aoi_manager (add_entity fl m.aoi_manager (as_entity p st));
      }

  -- `RegisterPlayer`, with the pointer that it returns.
  unfoldable pub register_player : F → PlayerStateManager F V → Str → PlayerStateManager F V × ℕ
  unfolding write add_entity
  register_player zero m id = elim (lookup id m.players) [
    | some p ↦ (m, p)
    | none ↦ (registered zero m id, m.fresh)
  ]

  abbrev pub unregistered : PlayerStateManager F V → Str → ℕ → PlayerStateManager F V
  unregistered m id p = record m {
    aoi_manager = or_keep m.aoi_manager (remove_entity fl m.aoi_manager (as_entity p (m.heap p)));
    players = erase id m.players;
    subscribers = forget id (erase id m.subscribers);
  }

  unfoldable pub unregister_player : PlayerStateManager F V → Str → PlayerStateManager F V
  unfolding forget remove_entity
  unregister_player m id = elim (lookup id m.players) [ none ↦ m | some p ↦ unregistered m id p ]

  abbrev pub moved : PlayerStateManager F V → ℕ → Vector3 F → PlayerStateManager F V
  moved m p position =
      let old = (m.heap p).position in
      let st = positioned (m.heap p) position in
      record (write p st m) {
        aoi_manager =
            or_keep m.aoi_manager (update_entity fl m.aoi_manager (as_entity p st) old.x old.z);
      }

  -- `UpdatePlayerPosition`
  unfoldable pub update_player_position : PlayerStateManager F V → Str → Vector3 F → Update F V
  unfolding write update_entity notify_subscribers
  update_player_position m id position = elim (lookup id m.players) [
    | none ↦ (m, none)
    | some p ↦ notified (moved m p position) id
  ]

  -- `GetNearbyPlayers`; `none` is an error.
  abbrev pub nearby_players : PlayerStateManager F V → Str → ℕ → Option ℕ
  nearby_players m id range = elim (lookup id m.players) [
    | none ↦ none
    | some p ↦ get_nearby_players fl m.aoi_manager (m.heap p).position.x (m.heap p).position.z range
  ]
