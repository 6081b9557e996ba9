-- ===== src/Aoi/Query.antt =====
-- The queries of pkg/aoi/aoi.go over the cells around a position. The loop `for x := a; x <= b; x++` is
-- given as many turns as it makes where b is not the greatest int, at which it never ends.
use mmo_server.Common.{
  ℕ, zero, suc, ◌+◌, ◌-◌, ◌%◌, ◌^◌, Bool, ◌&&◌, ◌||◌, not, List, [], ◌∷◌, ◌++◌, map, Option, none,
  some, if◌then◌else◌, Str, Dict, str_key, insert,
}
use mmo_server.Common.Ints.{int_add, int_lt, int_neg?}
use mmo_server.Aoi.{Float, Entity, AoiManager, at, outside, panic, get_grid, grid_index}

abbrev pub int_sub : ℕ → ℕ → ℕ
int_sub a b = (a + (2 ^ 64 - b)) % 2 ^ 64

-- The values that the variable of a loop takes, in so many turns.
unfoldable pub values : ℕ → ℕ → ℕ → List ℕ
unfolding int_add
values zero x last = []
values (suc n) x last =
    let rest = values n (int_add x 1) last in if int_lt last x then [] else x ∷ rest

abbrev pub turns : ℕ → ℕ → ℕ
turns first last = (int_sub last first + 1) % 2 ^ 64

abbrev pub around : ℕ → ℕ → List ℕ
around c range =
    values (turns (int_sub c range) (int_add c range)) (int_sub c range) (int_add c range)

abbrev pub in_bounds? : ℕ → ℕ → Bool
in_bounds? count x = not (int_neg? x) && int_lt x count

-- The inner loop.
unfoldable pub row : ℕ → ℕ → List ℕ → List (ℕ × ℕ)
row count x [] = []
row count x (y ∷ ys) =
    let rest = row count x ys in
    if in_bounds? count x && in_bounds? count y then (x, y) ∷ rest else rest

unfoldable pub rows : ℕ → List ℕ → List ℕ → List (ℕ × ℕ)
unfolding row
rows count [] ys = []
rows count (x ∷ xs) ys = row count x ys ++ rows count xs ys

module _ {F : Type 0} where
  -- `GetSurroundingGridsByRange`, as the places of the cells.
  unfoldable pub surrounding_by_range : AoiManager F → ℕ → ℕ → ℕ → List (ℕ × ℕ)
  unfolding values rows int_add
  surrounding_by_range m i j range = rows m.grid_count (around i range) (around j range)

  unfoldable pub collect_grid : Dict Str (Entity F) → Dict Str (Entity F) → Dict Str (Entity F)
  collect_grid [] found = found
  collect_grid ((id, e) ∷ es) found = collect_grid es (insert e.id e found)

  unfoldable pub collect : AoiManager F → List (ℕ × ℕ) → Dict Str (Entity F) → Dict Str (Entity F)
  unfolding collect_grid
  collect m [] found = found
  collect m ((i, j) ∷ cells) found = collect m cells (collect_grid (m.grids i j).entities found)

  unfoldable pub count_players : AoiManager F → List (ℕ × ℕ) → ℕ → ℕ
  unfolding int_add
  count_players m [] n = n
  count_players m ((i, j) ∷ cells) n = count_players m cells (int_add n (m.grids i j).player_count)

module _ {F : Type 0} (fl : Float F) where
  -- `none` is the error, or the panic.
  unfoldable pub get_surrounding_grids : AoiManager F → F → F → ℕ → Option (List (ℕ × ℕ))
  unfolding get_grid surrounding_by_range
  get_surrounding_grids m x z range = elim (get_grid fl m x z) [
    | at i j ↦ some (surrounding_by_range m i j range)
    | outside ↦ none
    | panic ↦ none
  ]

  unfoldable pub get_surrounding_entities : AoiManager F → F → F → ℕ → Option (List (Entity F))
  unfolding get_surrounding_grids collect
  get_surrounding_entities m x z range = elim (get_surrounding_grids m x z range) [
    | some cells ↦ some (map (λ e. e.1) (collect m cells []))
    | none ↦ none
  ]

  abbrev pub distance_squared : F → F → F → F × F × F → F
  distance_squared x y z (ex, ey, ez) =
      let dx = fl.sub ex x in
      let dy = fl.sub ey y in
      let dz = fl.sub ez z in fl.add (fl.add (fl.mul dx dx) (fl.mul dy dy)) (fl.mul dz dz)

  unfoldable pub within : (Entity F → F × F × F) → F → F → F → F → List (Entity F) → List (Entity F)
  within position x y z distance [] = []
  within position x y z distance (e ∷ es) =
      let rest = within position x y z distance es in
      if fl.le (distance_squared x y z (position e)) (fl.mul distance distance)
      then e ∷ rest
      else rest

  -- `GetEntitiesByDistance`; the entities are asked for their position.
  unfoldable pub get_entities_by_distance :
      AoiManager F → (Entity F → F × F × F) → F → F → F → F → Option (List (Entity F))
  unfolding get_surrounding_entities within
  get_entities_by_distance m position x y z distance =
      elim (get_surrounding_entities m x z (fl.ceil (fl.div distance m.grid_width))) [
        | some es ↦ some (within position x y z distance es)
        | none ↦ none
      ]

  unfoldable pub get_nearby_players : AoiManager F → F → F → ℕ → Option ℕ
  unfolding get_surrounding_grids count_players
  get_nearby_players m x z range = elim (get_surrounding_grids m x z range) [
    | some cells ↦ some (count_players m cells 0)
    | none ↦ none
  ]

  -- `GetGridPosition`
  unfoldable pub get_grid_position : AoiManager F → F → F → Option (ℕ × ℕ)
  unfolding grid_index
  get_grid_position m x z =
      if fl.lt x m.min_x || fl.ge x m.max_x || fl.lt z m.min_z || fl.ge z m.max_z
      then none
      else some (grid_index fl m x m.min_x, grid_index fl m z m.min_z)
