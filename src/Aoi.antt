-- ===== src/Aoi.antt =====
-- pkg/aoi/aoi.go: the grid of `AOIManager`. What the code does with float32 is the record `Float`,
-- where `to_int` and `ceil` give the
-- 64-bit pattern of a Go int. A cell is a value of the two-dimensional array,
-- and the range over a cell's map is over the association list in its order.
pub mod Laws
pub mod Update
pub mod Query
pub mod Range
mod Tests
use mmo_server.Common.{
  ℕ, ◌+◌, ◌-◌, ◌%◌, ◌^◌, Bool, true, false, ◌&&◌, ◌||◌, List, [], ◌∷◌, ◌++◌, Option, none, some,
  ite, ltb, ◌==◌, if◌then◌else◌, Str, ℕ_discrete, Dict, str_key, lookup, insert, erase,
}
use mmo_server.Common.Ints.{int_add, int_lt, int_neg?}

pub record Float (F : Type 0) : Type 0 where
  pub lt : F → F → Bool
  pub ge : F → F → Bool
  pub sub : F → F → F
  pub div : F → F → F
  pub to_int : F → ℕ
  pub ceil : F → ℕ
  pub le : F → F → Bool
  pub add : F → F → F
  pub mul : F → F → F

-- A value of the interface `Entity` with what its methods return; `self` is the object behind it.
pub record Entity (F : Type 0) : Type 0 where
  pub id : Str
  pub x : F
  pub y : F
  pub z : F
  pub type_id : ℕ
  pub self : ℕ

pub record Grid (F : Type 0) : Type 0 where
  pub entities : Dict Str (Entity F)
  pub player_count : ℕ

pub record AoiManager (F : Type 0) : Type 0 where
  pub min_x : F
  pub max_x : F
  pub min_z : F
  pub max_z : F
  pub grid_width : F
  pub grid_count : ℕ
  pub grids : ℕ → ℕ → Grid F

abbrev pub new_grid : {F : Type 0} → Grid F
new_grid = record { entities = []; player_count = 0 }

-- `NewAOIManager`, with the width that it computes.
abbrev pub new_aoi_manager : {F : Type 0} → F → F → F → F → F → ℕ → AoiManager F
new_aoi_manager min_x max_x min_z max_z width count = record {
  min_x = min_x;
  max_x = max_x;
  min_z = min_z;
  max_z = max_z;
  grid_width = width;
  grid_count = count;
  grids = λ i j. new_grid;
}

-- A cell, the error that the position is outside the scene, or an index out of range.
pub data Place : Type 0 where
  at : ℕ → ℕ → Place
  outside : Place
  panic : Place

unfoldable pub int_dec : ℕ → ℕ
int_dec a = (a + (2 ^ 64 - 1)) % 2 ^ 64

-- Zero stands for the type of players.
abbrev pub is_player? : {F : Type 0} → Entity F → Bool
is_player? e = e.type_id == 0

abbrev pub same_cell : ℕ → ℕ → ℕ → ℕ → Bool
same_cell i j k l = (i == k) && (j == l)

module _ {F : Type 0} where
  unfoldable pub set_grid : ℕ → ℕ → Grid F → AoiManager F → AoiManager F
  set_grid i j g m = record m {
    grids = λ a b. ite (ℕ_discrete i a) (ite (ℕ_discrete j b) g (m.grids a b)) (m.grids a b);
  }

  unfoldable pub put : Entity F → Grid F → Grid F
  put e g = record {
    entities = insert e.id e g.entities;
    player_count = if is_player? e then int_add g.player_count 1 else g.player_count;
  }

  unfoldable pub drop_entity : Entity F → Grid F → Grid F
  drop_entity e g = elim (lookup e.id g.entities) [
    | none ↦ g
    | some old ↦ record {
      entities = erase e.id g.entities;
      player_count = if is_player? e then int_dec g.player_count else g.player_count;
    }
  ]

  unfoldable pub move : ℕ → ℕ → ℕ → ℕ → Entity F → AoiManager F → AoiManager F
  unfolding set_grid put drop_entity
  move i j k l e m =
      let m' = set_grid i j (drop_entity e (m.grids i j)) m in
      if same_cell i j k l then m else set_grid k l (put e (m'.grids k l)) m'

module _ {F : Type 0} (fl : Float F) where
  unfoldable pub grid_index : AoiManager F → F → F → ℕ
  grid_index m v min =
      let i = fl.to_int (fl.div (fl.sub v min) m.grid_width) in
      if int_lt i m.grid_count then i else int_dec m.grid_count

  -- `GetGrid`, as the place of the cell that it returns.
  unfoldable pub get_grid : AoiManager F → F → F → Place
  unfolding grid_index
  get_grid m x z =
      let i = grid_index m x m.min_x in
      let j = grid_index m z m.min_z in
      if fl.lt x m.min_x || fl.ge x m.max_x || fl.lt z m.min_z || fl.ge z m.max_z
      then outside
      else if ltb i m.grid_count && ltb j m.grid_count
      then at i j
      else panic

  -- `none` is the error, or the panic.
  unfoldable pub add_entity : AoiManager F → Entity F → Option (AoiManager F)
  unfolding get_grid set_grid put
  add_entity m e = elim (get_grid m e.x e.z) [
    | at i j ↦ some (set_grid i j (put e (m.grids i j)) m)
    | outside ↦ none
    | panic ↦ none
  ]

  unfoldable pub remove_entity : AoiManager F → Entity F → Option (AoiManager F)
  unfolding get_grid set_grid drop_entity
  remove_entity m e = elim (get_grid m e.x e.z) [
    | at i j ↦ some (set_grid i j (drop_entity e (m.grids i j)) m)
    | outside ↦ none
    | panic ↦ none
  ]

  -- `UpdateEntity` of an entity that stood at the old position.
  unfoldable pub update_entity : AoiManager F → Entity F → F → F → Option (AoiManager F)
  unfolding get_grid move
  update_entity m e old_x old_z = elim (get_grid m old_x old_z) [
    | at i j ↦ elim (get_grid m e.x e.z) [
      | at k l ↦ some (move i j k l e m)
      | outside ↦ none
      | panic ↦ none
    ]
    | outside ↦ none
    | panic ↦ none
  ]
