-- ===== src/Aoi/Tests.antt =====
-- The grid of pkg/aoi/aoi.go with two cells a side, over whole numbers.
use mmo_server.Common.{
  ℕ, ◌+◌, ◌-◌, ◌*◌, ◌/◌, ◌≡◌, refl, ◌&&◌, [], ◌∷◌, some, ltb, leb, Str_discrete, ℕ_discrete,
  str_key, lookup, insert, erase, arith,
}
use mmo_server.Common.Ints.{int_add}
use mmo_server.Aoi.{
  Float, Entity, AoiManager, at, new_aoi_manager, int_dec, set_grid, put, drop_entity, grid_index,
  get_grid, add_entity, remove_entity, move, update_entity,
}
use mmo_server.Aoi.Query.{
  surrounding_by_range, values, rows, row, get_surrounding_grids, count_players, get_nearby_players,
}
use mmo_server.Aoi.Range.{visits, bit, near?, surrounding_by_range-visits}
use mmo_server.Aoi.Laws.{players, IsSound, IsFrom, put-IsCounted, set_grid-IsSound}
use mmo_server.Aoi.Update.{OnlyAt, put-IsFrom, update_entity-IsSound}

program : Unit {0}
unfolding lookup insert erase Str_discrete ℕ_discrete int_add int_dec set_grid put drop_entity
    grid_index get_grid add_entity remove_entity move update_entity players surrounding_by_range
    values rows row get_surrounding_grids count_players get_nearby_players
program = tt

abbrev whole : Float ℕ
whole = record {
  lt = ltb;
  ge = λ a b. leb b a;
  sub = λ a b. a - b;
  div = λ a b. a / b;
  to_int = λ a. a;
  ceil = λ a. a;
  le = leb;
  add = λ a b. a + b;
  mul = λ a b. a * b;
}

abbrev player : ℕ → Entity ℕ
player x = record { id = 7 ∷ []; x = x; y = 0; z = 0; type_id = 0; self = 0 }

abbrev m0 : AoiManager ℕ
m0 = new_aoi_manager 0 20 0 20 10 2

abbrev m1 : AoiManager ℕ
m1 = set_grid 0 0 (put (player 3) (m0.grids 0 0)) m0

abbrev m2 : AoiManager ℕ
m2 = move 0 0 1 0 (player 12) m1

added : add_entity whole m0 (player 3) ≡ some m1
unfolding program
added = refl

m0-IsSound : IsSound m0
unfolding program
m0-IsSound a b = record { ids_map = tt; counted = omega arith }

m1-IsSound : IsSound m1
unfolding lookup
m1-IsSound =
    set_grid-IsSound 0 0 _ m0 m0-IsSound
      (put-IsCounted (player 3) (m0.grids 0 0) (m0-IsSound 0 0) refl)

m1-IsFrom : IsFrom 0 0 (player 12) m1
unfolding lookup
m1-IsFrom = put-IsFrom 0 0 (player 3) (player 12) m0 refl refl (λ a b. refl)

moved : update_entity whole m1 (player 12) 3 0 ≡ some m2
unfolding program
moved = refl

update_entity-IsSound_example :
    IsSound m2 × ((k : ℕ) × (l : ℕ) × (get_grid whole m1 12 0 ≡ at k l) × OnlyAt k l (player 12) m2)
unfolding get_grid grid_index set_grid
update_entity-IsSound_example =
    update_entity-IsSound whole m1 m2 (player 12) 3 0 0 0 m1-IsSound m1-IsFrom refl moved

abbrev m3 : AoiManager ℕ
m3 = new_aoi_manager 0 50 0 50 10 5

-- The corner of a grid of five by five has nine cells within a range of two, and the cell (2, 1) is
-- among them.
surrounding_by_range-visits_example :
    visits 2 1 (surrounding_by_range m3 0 0 2)
    ≡ bit (ltb 2 5 && ltb 1 5 && near? 2 0 2 && near? 2 0 1)
surrounding_by_range-visits_example =
    surrounding_by_range-visits m3 0 0 2 2 1 (omega arith) (omega arith) (omega arith)

around_corner : surrounding_by_range m3 0 0 1 ≡ (0, 0) ∷ (0, 1) ∷ (1, 0) ∷ (1, 1) ∷ []
unfolding surrounding_by_range
around_corner = refl

one_nearby : get_nearby_players whole m2 3 0 1 ≡ some 1
unfolding program
one_nearby = refl
