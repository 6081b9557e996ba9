-- ===== src/Player/Service.antt =====
-- pkg/sync/player_state.go: `SyncPlayerStateService` and `BroadcastService`. The log, the message IDs and
-- the times of the responses are left out, and so is the sending of messages, which the source leaves
-- for later.
use mmo_server.Common.{
  ℕ, ◌+◌, Bool, true, false, List, [], ◌∷◌, Option, none, some, ite, length, ◌==◌, if◌then◌else◌,
  Str, Str_discrete, str_key, lookup,
}
use mmo_server.Common.Literals.{utf8}
use mmo_server.Aoi.{Float, Entity}
use mmo_server.Aoi.Query.{get_entities_by_distance}
use mmo_server.Player.{
  Vector3, PlayerState, PlayerStateManager, update_player_position, update_player_velocity,
  update_player_rotation,
}

pub record EntityPosition (F : Type 0) : Type 0 where
  pub entity_id : Str
  pub entity_type : Str
  pub position : Vector3 F
  pub rotation : F
  pub velocity : Vector3 F

pub record PositionSyncRequest (F : Type 0) : Type 0 where
  pub entity_id : Str
  pub position : Vector3 F
  pub velocity : Option (Vector3 F)
  pub rotation : F
  pub session_id : Str
  pub version : ℕ

pub record PositionSyncResponse (F : Type 0) : Type 0 where
  pub success : Bool
  pub nearby_entities : List (EntityPosition F)
  pub session_id : Str
  pub version : ℕ
  pub result_code : ℕ

unfoldable pub count_others : {F : Type 0} → Str → List (Entity F) → ℕ
count_others id [] = 0
count_others id (e ∷ es) =
    let rest = count_others id es in
    ite (Str_discrete e.id id) rest (if e.type_id == 0 then rest + 1 else rest)

abbrev or_none : {A : Type 0} → Option (List A) → List A
or_none none = []
or_none (some xs) = xs

module _ {F V : Type 0} where
  -- `GetPosition` of the player behind an entity of the grid.
  abbrev pub position_of : PlayerStateManager F V → Entity F → F × F × F
  position_of m e = let position = (m.heap e.self).position in (position.x, position.y, position.z)

  abbrev pub entity_position : PlayerState F V → EntityPosition F
  entity_position st = record {
    entity_id = st.id;
    entity_type = utf8 "player";
    position = st.position;
    rotation = st.rotation;
    velocity = st.velocity;
  }

  unfoldable pub positions :
      PlayerStateManager F V → Str → List (Entity F) → List (EntityPosition F)
  positions m id [] = []
  positions m id (e ∷ es) =
      let rest = positions m id es in
      ite (Str_discrete e.id id) rest (entity_position (m.heap e.self) ∷ rest)

module _ {F V : Type 0} (fl : Float F) (hundred : F) where
  -- The entities within 100 units of a player.
  abbrev pub around_player : PlayerStateManager F V → ℕ → Option (List (Entity F))
  around_player m p =
      let position = (m.heap p).position in
      get_entities_by_distance fl m.aoi_manager (position_of m) position.x position.y position.z
        hundred

  -- `getNearbyEntities`; `none` is an error.
  unfoldable pub get_nearby_entities :
      PlayerStateManager F V → Str → Option (List (EntityPosition F))
  unfolding get_entities_by_distance positions
  get_nearby_entities m id = elim (lookup id m.players) [
    | none ↦ none
    | some p ↦ elim (around_player m p) [ none ↦ none | some es ↦ some (positions m id es) ]
  ]

  abbrev with_velocity : PlayerStateManager F V → Str → Option (Vector3 F) → PlayerStateManager F V
  with_velocity m id none = m
  with_velocity m id (some v) = (update_player_velocity m id v).0

  abbrev respond :
      PositionSyncRequest F
      → PlayerStateManager F V
      → PlayerStateManager F V × PositionSyncResponse F
  respond req m = (
    m,
    record {
      success = true;
      nearby_entities = or_none (get_nearby_entities m req.entity_id);
      session_id = req.session_id;
      version = req.version;
      result_code = 0;
    },
  )

  abbrev sync_refused :
      PositionSyncRequest F
      → PlayerStateManager F V
      → PlayerStateManager F V × PositionSyncResponse F
  sync_refused req m = (
    m,
    record {
      success = false;
      nearby_entities = [];
      session_id = req.session_id;
      version = req.version;
      result_code = 1;
    },
  )

  -- `SyncPosition`
  unfoldable pub sync_position :
      PlayerStateManager F V
      → PositionSyncRequest F
      → PlayerStateManager F V × PositionSyncResponse F
  unfolding update_player_position update_player_velocity update_player_rotation get_nearby_entities
  sync_position m req =
      let id = req.entity_id in
      let (m1, notice) = update_player_position fl m id req.position in
      let m2 = (update_player_rotation (with_velocity m1 id req.velocity) id req.rotation).0 in
      elim notice [ none ↦ sync_refused req m1 | some n ↦ respond req m2 ]

  -- `BroadcastToNearby`, with the number of players that its response names.
  unfoldable pub broadcast_to_nearby : PlayerStateManager F V → Str → Option ℕ
  unfolding get_entities_by_distance count_others
  broadcast_to_nearby m sender = elim (lookup sender m.players) [
    | none ↦ none
    | some p ↦ elim (around_player m p) [ none ↦ none | some es ↦ some (count_others sender es) ]
  ]

-- `BroadcastMessage`
abbrev pub broadcast_message : {F V : Type 0} → PlayerStateManager F V → ℕ
broadcast_message m = length m.players

pub data ChatType : Type 0 where
  private_chat : ChatType
  team : ChatType
  guild : ChatType
  channel : ChatType
  other : ChatType

-- `GroupcastMessage`
unfoldable pub groupcast_message : ChatType → Str → ℕ
groupcast_message private_chat [] = 0
groupcast_message private_chat (x ∷ id) = 1
groupcast_message team id = 5
groupcast_message guild id = 50
groupcast_message channel id = 100
groupcast_message other id = 0
