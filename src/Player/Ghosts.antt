-- ===== src/Player/Ghosts.antt =====
-- The players of pkg/sync/player_state.go that stay in the grid of pkg/aoi/aoi.go.
use mmo_server.Common.{ℕ, ◌≡◌, refl, ap, ap₂, ◌∙◌, some, Str, str_key, lookup, if_pos, ℕ_discrete}
use mmo_server.Aoi.{
  Float, AoiManager, Place, at, outside, panic, get_grid, update_entity, remove_entity, Entity,
}
use mmo_server.Player.{
  PlayerStateManager, Vector3, as_entity, or_keep, moved, positioned, write, update_player_position,
  unregister_player,
}
use mmo_server.Player.Laws.{unregister_player-found}

module _ {F : Type 0} (fl : Float F) where
  update-outside :
      (m : AoiManager F) (e : Entity F) (old_x old_z : F) (q : Place)
      → get_grid fl m old_x old_z ≡ q
      → get_grid fl m e.x e.z ≡ outside
      → or_keep m (update_entity fl m e old_x old_z) ≡ m
  unfolding update_entity
  update-outside m e old_x old_z (at i j) here h = rw (here, h, update_entity) refl
  update-outside m e old_x old_z outside here h = rw (here, update_entity) refl
  update-outside m e old_x old_z panic here h = rw (here, update_entity) refl

  remove-outside :
      (m : AoiManager F) (e : Entity F)
      → get_grid fl m e.x e.z ≡ outside
      → or_keep m (remove_entity fl m e) ≡ m
  unfolding remove_entity
  remove-outside m e h = rw (h, remove_entity) refl

module _ {F V : Type 0} (fl : Float F) where
  update_player_position-found :
      (m : PlayerStateManager F V) (id : Str) (p : ℕ) (position : Vector3 F)
      → lookup id m.players ≡ some p
      → (update_player_position fl m id position).0 ≡ moved fl m p position
  unfolding update_player_position
  update_player_position-found m id p position h = rw (h, update_player_position) refl

  -- A player that moves to a position outside the scene and is unregistered there leaves every cell of
  -- the grid as it was, the one that holds it too.
  pub unregister_player-outside :
      (m : PlayerStateManager F V) (id : Str) (p : ℕ) (position : Vector3 F)
      → lookup id m.players ≡ some p
      → get_grid fl m.aoi_manager position.x position.z ≡ outside
      → (unregister_player fl (update_player_position fl m id position).0 id).aoi_manager
        ≡ m.aoi_manager
  unfolding write
  unregister_player-outside m id p position h out =
      let st = positioned (m.heap p) position in
      let old = (m.heap p).position in
      let stays = update-outside fl m.aoi_manager (as_entity p st) old.x old.z _ refl out in
      ap (λ n. (unregister_player fl n id).aoi_manager)
        (update_player_position-found m id p position h)
      ∙ ap (λ n. n.aoi_manager) (unregister_player-found fl (moved fl m p position) id p h)
      ∙ ap₂ (λ a st'. or_keep a (remove_entity fl a (as_entity p st'))) stays
          (if_pos (ℕ_discrete p p) refl st (m.heap p))
      ∙ remove-outside fl m.aoi_manager (as_entity p st) out
