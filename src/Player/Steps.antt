-- ===== src/Player/Steps.antt =====
-- pkg/sync/player_state.go at work: what holds of the players whatever is called.
use mmo_server.Common.{ℕ, inl, inr, refl, Option-cases, Str, str_key, lookup}
use mmo_server.Aoi.{Float}
use mmo_server.Player.{
  PlayerState, PlayerStateManager, Vector3, write, register_player, unregister_player,
  subscribe_to_player, unsubscribe_from_player, register_callback, unregister_callback,
  update_player_position, update_player_velocity, update_player_rotation, update_player_attribute,
  new_player_state_manager, positioned,
}
use mmo_server.Player.Listed.{
  IsListed, Same-IsListed, write-Same, register_player-IsListed, unregister_player-IsListed,
  subscribe_to_player-IsListed, unsubscribe_from_player-IsListed,
}

module _ {F V : Type 0} where
  update_player_position-IsListed :
      (fl : Float F) (m : PlayerStateManager F V) (id : Str) (position : Vector3 F)
      → IsListed m
      → IsListed (update_player_position fl m id position).0
  unfolding update_player_position write
  update_player_position-IsListed fl m id position v = elim (Option-cases (lookup id m.players)) [
    | inl e ↦ rw (e, update_player_position) v
    | inr (p, e) ↦
        rw (e, update_player_position)
          (let s = write-Same p (positioned (m.heap p) position) m refl in
            Same-IsListed m _
              (record { ids = s.ids; fresh = refl; players = refl; subscribers = refl }) v)
  ]

  update_player_velocity-IsListed :
      (m : PlayerStateManager F V) (id : Str) (velocity : Vector3 F)
      → IsListed m
      → IsListed (update_player_velocity m id velocity).0
  unfolding update_player_velocity
  update_player_velocity-IsListed m id velocity v = elim (Option-cases (lookup id m.players)) [
    | inl e ↦ rw (e, update_player_velocity) v
    | inr (p, e) ↦ rw (e, update_player_velocity) (Same-IsListed m _ (write-Same p _ m refl) v)
  ]

  update_player_rotation-IsListed :
      (m : PlayerStateManager F V) (id : Str) (rotation : F)
      → IsListed m
      → IsListed (update_player_rotation m id rotation).0
  unfolding update_player_rotation
  update_player_rotation-IsListed m id rotation v = elim (Option-cases (lookup id m.players)) [
    | inl e ↦ rw (e, update_player_rotation) v
    | inr (p, e) ↦ rw (e, update_player_rotation) (Same-IsListed m _ (write-Same p _ m refl) v)
  ]

  update_player_attribute-IsListed :
      (m : PlayerStateManager F V) (id : Str) (key : Str) (value : V)
      → IsListed m
      → IsListed (update_player_attribute m id key value).0
  unfolding update_player_attribute
  update_player_attribute-IsListed m id key value v = elim (Option-cases (lookup id m.players)) [
    | inl e ↦ rw (e, update_player_attribute) v
    | inr (p, e) ↦ rw (e, update_player_attribute) (Same-IsListed m _ (write-Same p _ m refl) v)
  ]

  -- A call of the manager.
  pub data Step (fl : Float F) (zero : F) (m : PlayerStateManager F V)
      : PlayerStateManager F V → Type 0 where
    registered_one : (id : Str) → Step fl zero m (register_player fl zero m id).0
    unregistered_one : (id : Str) → Step fl zero m (unregister_player fl m id)
    moved_one :
        (id : Str) (position : Vector3 F)
        → Step fl zero m (update_player_position fl m id position).0
    sped_one :
        (id : Str) (velocity : Vector3 F) → Step fl zero m (update_player_velocity m id velocity).0
    turned_one : (id : Str) (rotation : F) → Step fl zero m (update_player_rotation m id rotation).0
    changed_one :
        (id key : Str) (value : V) → Step fl zero m (update_player_attribute m id key value).0
    subscribed : (id target : Str) → Step fl zero m (subscribe_to_player m id target).0
    unsubscribed : (id target : Str) → Step fl zero m (unsubscribe_from_player m id target).0
    callback_added :
        (name : Str) (callback : ℕ) → Step fl zero m (register_callback m name callback)
    callback_removed : (name : Str) → Step fl zero m (unregister_callback m name)

  Step-IsListed :
      {fl : Float F} {zero : F} {m m' : PlayerStateManager F V}
      → Step fl zero m m'
      → IsListed m
      → IsListed m'
  unfolding register_callback unregister_callback
  Step-IsListed {fl} {zero} {m} (registered_one id) v = register_player-IsListed fl zero m id v
  Step-IsListed {fl} {zero} {m} (unregistered_one id) v = unregister_player-IsListed fl m id v
  Step-IsListed {fl} {zero} {m} (moved_one id position) v =
      update_player_position-IsListed fl m id position v
  Step-IsListed {fl} {zero} {m} (sped_one id velocity) v =
      update_player_velocity-IsListed m id velocity v
  Step-IsListed {fl} {zero} {m} (turned_one id rotation) v =
      update_player_rotation-IsListed m id rotation v
  Step-IsListed {fl} {zero} {m} (changed_one id key value) v =
      update_player_attribute-IsListed m id key value v
  Step-IsListed {fl} {zero} {m} (subscribed id target) v =
      subscribe_to_player-IsListed m id target v
  Step-IsListed {fl} {zero} {m} (unsubscribed id target) v =
      unsubscribe_from_player-IsListed m id target v
  Step-IsListed {fl} {zero} {m} (callback_added name callback) v =
      Same-IsListed m _
        (record { ids = λ p. refl; fresh = refl; players = refl; subscribers = refl }) v
  Step-IsListed {fl} {zero} {m} (callback_removed name) v =
      Same-IsListed m _
        (record { ids = λ p. refl; fresh = refl; players = refl; subscribers = refl }) v

  -- What may come of a new manager.
  pub data Reachable (fl : Float F) (zero thousand width : F) (heap : ℕ → PlayerState F V)
      : PlayerStateManager F V → Type 0 where
    started :
        Reachable fl zero thousand width heap (new_player_state_manager heap zero thousand width)
    stepped :
        {m m' : PlayerStateManager F V}
        → Reachable fl zero thousand width heap m
        → Step fl zero m m'
        → Reachable fl zero thousand width heap m'

  -- After any sequence of calls, every player is a state with the player's ID, the players are those
  -- that have a list of subscribers, and no list names a subscriber twice.
  pub Reachable-IsListed :
      {fl : Float F} {zero thousand width : F} {heap : ℕ → PlayerState F V}
      {m : PlayerStateManager F V}
      → Reachable fl zero thousand width heap m
      → IsListed m
  Reachable-IsListed started =
      unfold lookup in
      record { named = λ id p h. absurd (cc); listed = λ id. refl; distinct = λ id. tt }
  Reachable-IsListed (stepped r s) = Step-IsListed s (Reachable-IsListed r)
