-- ===== src/Player/Laws.antt =====
-- The players and the subscriptions of pkg/sync/player_state.go.
use mmo_server.Common.{
  ℕ, ◌≡◌, refl, ap, ◌∙◌, true, false, List, [], ◌∷◌, ◌++◌, Option, none, some, ite, or_empty, Str,
  Str_discrete, Dict, str_key, lookup, erase, lookup-erase, arith,
}
use mmo_server.Aoi.{Float}
use mmo_server.Player.{
  PlayerStateManager, contains?, without, forget, unregister_player, unregistered,
}

pub contains?-without :
    (id x : Str) (subs : List Str)
    → contains? x (without id subs) ≡ ite (Str_discrete id x) false (contains? x subs)
unfolding contains? without
contains?-without id x [] = ground arith
contains?-without id x (s ∷ subs) = ground (arith, contains?-without id x subs)

contains?-append :
    (x id : Str) (subs : List Str)
    → contains? x (subs ++ (id ∷ [])) ≡ ite (Str_discrete id x) true (contains? x subs)
unfolding contains?
contains?-append x id [] = refl
contains?-append x id (s ∷ subs) = ground (arith, contains?-append x id subs)

-- No ID twice.
abbrev pub IsDistinct : List Str → Type 0
IsDistinct [] = Unit {0}
IsDistinct (s ∷ subs) = (contains? s subs ≡ false) × IsDistinct subs

pub without-IsDistinct :
    (id : Str) (subs : List Str) → IsDistinct subs → IsDistinct (without id subs)
unfolding without
without-IsDistinct id [] h = tt
without-IsDistinct id (s ∷ subs) h =
    ground (arith, without-IsDistinct id subs h.1, contains?-without id s subs)

pub append-IsDistinct :
    (id : Str) (subs : List Str)
    → contains? id subs ≡ false
    → IsDistinct subs
    → IsDistinct (subs ++ (id ∷ []))
unfolding contains?
append-IsDistinct id [] e h = (refl, tt)
append-IsDistinct id (s ∷ subs) e h = elim (Str_discrete s id) [
  | yes p ↦ absurd (ground arith)
  | no p ↦ (
    ground (arith, contains?-append s id subs, h.0),
    append-IsDistinct id subs (ground arith) h.1,
  )
]

abbrev pub kept : Str → Option (List Str) → Option (List Str)
kept id none = none
kept id (some subs) = some (without id subs)

pub lookup-forget :
    (id k : Str) (m : Dict Str (List Str)) → lookup k (forget id m) ≡ kept id (lookup k m)
unfolding lookup forget
lookup-forget id k [] = refl
lookup-forget id k ((j, subs) ∷ m) = elim (Str_discrete j k) [
  | yes p ↦ ground arith
  | no p ↦ ground (arith, lookup-forget id k m)
]

-- The subscribers of a player.
abbrev pub subscribers_of : {F V : Type 0} → PlayerStateManager F V → Str → List Str
subscribers_of m id = or_empty (lookup id m.subscribers)

or_empty-kept : (id : Str) (o : Option (List Str)) → or_empty (kept id o) ≡ without id (or_empty o)
or_empty-kept id none = unfold without in refl
or_empty-kept id (some subs) = refl

without-ite :
    {P : Type 0} (d : Dec P) (id : Str) (o : Option (List Str))
    → without id (or_empty (ite d none o)) ≡ ite d [] (without id (or_empty o))
without-ite (yes p) id o = unfold without in refl
without-ite (no p) id o = refl

contains?-ite :
    {P : Type 0} (d : Dec P) (id x : Str) (subs : List Str)
    → contains? x (ite d [] (without id subs))
      ≡ ite d false (ite (Str_discrete id x) false (contains? x subs))
contains?-ite (yes p) id x subs = unfold contains? in refl
contains?-ite (no p) id x subs = contains?-without id x subs

pub subscribers-forget :
    (id k : Str) (m : Dict Str (List Str))
    → or_empty (lookup k (forget id (erase id m)))
      ≡ ite (Str_discrete id k) [] (without id (or_empty (lookup k m)))
subscribers-forget id k m =
    ap or_empty (lookup-forget id k (erase id m))
    ∙ or_empty-kept id (lookup k (erase id m))
    ∙ ap (λ o. without id (or_empty o)) (lookup-erase id k m)
    ∙ without-ite (Str_discrete id k) id (lookup k m)

pub unregister_player-found :
    {F V : Type 0} (fl : Float F) (m : PlayerStateManager F V) (id : Str) (p : ℕ)
    → lookup id m.players ≡ some p
    → unregister_player fl m id ≡ unregistered fl m id p
unfolding unregister_player
unregister_player-found fl m id p h = rw (h, unregister_player) refl

-- A player that has been unregistered is gone, has no subscribers and is a subscriber of nobody; the
-- other players are as they were, with their subscribers but that one.
pub unregister_player-forgets :
    {F V : Type 0} (fl : Float F) (m : PlayerStateManager F V) (id : Str) (p : ℕ)
    → lookup id m.players ≡ some p
    → ((other : Str)
        → lookup other (unregister_player fl m id).players
          ≡ ite (Str_discrete id other) none (lookup other m.players))
      × ((other x : Str)
          → contains? x (subscribers_of (unregister_player fl m id) other)
            ≡ ite
                (Str_discrete id other)
                false
                (ite (Str_discrete id x) false (contains? x (subscribers_of m other))))
unregister_player-forgets fl m id p h =
    let found = unregister_player-found fl m id p h in
    (
      λ other. ap (λ n. lookup other n.players) found ∙ lookup-erase id other m.players,
      λ other x.
          ap (λ n. contains? x (subscribers_of n other)) found
          ∙ ap (contains? x) (subscribers-forget id other m.subscribers)
          ∙ contains?-ite (Str_discrete id other) id x (subscribers_of m other),
    )
