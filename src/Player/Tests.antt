-- ===== src/Player/Tests.antt =====
-- pkg/sync/player_state.go with whole numbers for positions, of two players on a grid of 1000 by 1000.
use mmo_server.Common.{
  ℕ, ◌+◌, ◌-◌, ◌*◌, ◌/◌, ◌≡◌, refl, false, [], ◌∷◌, none, some, ite, ltb, leb, Str, Str_discrete,
  ℕ_discrete, str_key, lookup, insert, erase,
}
use mmo_server.Common.Ints.{int_add}
use mmo_server.Aoi.{
  Float, outside, int_dec, set_grid, put, drop_entity, grid_index, get_grid, add_entity,
  remove_entity, move, update_entity,
}
use mmo_server.Aoi.Query.{
  surrounding_by_range, values, row, rows, collect_grid, collect, get_surrounding_grids,
  get_surrounding_entities, within, get_entities_by_distance, count_players, get_nearby_players,
}
use mmo_server.Player.{
  PlayerState, PlayerStateManager, Vector3, contains?, without, forget, write, notify_subscribers,
  new_player, new_player_state_manager, register_player, unregister_player, subscribe_to_player,
  update_player_position, update_player_velocity, update_player_rotation, nearby_players,
}
use mmo_server.Player.Service.{get_nearby_entities, positions, count_others, broadcast_to_nearby}
use mmo_server.Player.Laws.{subscribers_of, unregister_player-forgets}
use mmo_server.Player.Listed.{IsListed}
use mmo_server.Player.Steps.{started, stepped, registered_one, subscribed, Reachable-IsListed}
use mmo_server.Player.Ghosts.{unregister_player-outside}

program : Unit {0}
unfolding lookup insert erase Str_discrete ℕ_discrete int_add int_dec set_grid put drop_entity
    grid_index get_grid add_entity remove_entity move update_entity surrounding_by_range values row
    rows collect_grid collect get_surrounding_grids get_surrounding_entities within
    get_entities_by_distance contains? without forget write notify_subscribers register_player
    unregister_player subscribe_to_player update_player_position update_player_velocity
    update_player_rotation get_nearby_entities positions count_others broadcast_to_nearby
    count_players get_nearby_players
program = tt

abbrev whole : Float ℕ
whole = record {
  lt = ltb;
  ge = λ a b. leb b a;
  sub = λ a b. a - b;
  div = λ a b. a / b;
  to_int = λ a. a;
  ceil = λ a. a;
  le = leb;
  add = λ a b. a + b;
  mul = λ a b. a * b;
}

abbrev nobody : ℕ → PlayerState ℕ ℕ
nobody p = new_player 0 []

abbrev ann : Str
ann = b'a' ∷ []

abbrev bob : Str
bob = b'b' ∷ []

abbrev m0 : PlayerStateManager ℕ ℕ
m0 = new_player_state_manager nobody 0 1000 50

abbrev m1 : PlayerStateManager ℕ ℕ
m1 = (register_player whole 0 m0 ann).0

abbrev m2 : PlayerStateManager ℕ ℕ
m2 = (register_player whole 0 m1 bob).0

abbrev m3 : PlayerStateManager ℕ ℕ
m3 = (subscribe_to_player m2 ann bob).0

abbrev far : Vector3 ℕ
far = record { x = 2000; y = 0; z = 0 }

Reachable-IsListed_example : IsListed m3
Reachable-IsListed_example =
    Reachable-IsListed {fl = whole} {zero = 0} {thousand = 1000} {width = 50} {heap = nobody}
      {m = m3}
      (stepped (stepped (stepped started (registered_one ann)) (registered_one bob))
        (subscribed ann bob))

bob_found : lookup bob m3.players ≡ some 1
unfolding program
bob_found = refl

unregister_player-forgets_example :
    ((other : Str)
      → lookup other (unregister_player whole m3 bob).players
        ≡ ite (Str_discrete bob other) none (lookup other m3.players))
    × ((other x : Str)
        → contains? x (subscribers_of (unregister_player whole m3 bob) other)
          ≡ ite
              (Str_discrete bob other)
              false
              (ite (Str_discrete bob x) false (contains? x (subscribers_of m3 other))))
unregister_player-forgets_example = unregister_player-forgets whole m3 bob 1 bob_found

far_outside : get_grid whole m3.aoi_manager 2000 0 ≡ outside
unfolding program
far_outside = refl

unregister_player-outside_example :
    (unregister_player whole (update_player_position whole m3 bob far).0 bob).aoi_manager
    ≡ m3.aoi_manager
unregister_player-outside_example =
    unregister_player-outside whole m3 bob 1 far bob_found far_outside

-- Bob has left, and `GetNearbyPlayers` still counts a neighbour of Ann beside herself.
still_nearby :
    nearby_players whole
      (unregister_player whole (update_player_position whole m3 bob far).0 bob)
      ann
      1
    ≡ some 2
unfolding program
still_nearby = refl

-- Bob, whose position is far away, is no entity within 100 units.
not_close : broadcast_to_nearby whole 100 (update_player_position whole m3 bob far).0 ann ≡ some 0
unfolding program
not_close = refl
