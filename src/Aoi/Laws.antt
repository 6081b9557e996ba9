-- ===== src/Aoi/Laws.antt =====
-- The player counts of pkg/aoi/aoi.go.
use mmo_server.Common.{
  ℕ, ◌+◌, ◌%◌, ◌^◌, ◌≡◌, inl, inr, sym, ap, subst, ◌∙◌, Bool, true, false, [], ◌∷◌, none, some, ite,
  if_pos, if_neg, ◌==◌, if◌then◌else◌, Str, Str_discrete, ℕ_discrete, Dict, str_key, lookup, insert,
  erase, erase_absent, IsMap, insert-IsMap, erase-IsMap, lookup-erase, Option-cases, arith,
}
use mmo_server.Common.Ints.{int_add}
use mmo_server.Aoi.{
  Entity, Grid, AoiManager, int_dec, is_player?, set_grid, put, drop_entity, same_cell,
}

abbrev one_if : Bool → ℕ
one_if true = 1
one_if false = 0

count_put :
    (b : Bool) (c p q : ℕ)
    → c ≡ p % 2 ^ 64
    → q ≡ p + one_if b
    → (if b then int_add c 1 else c) ≡ q % 2 ^ 64
unfolding int_add
count_put true c p q h k = omega (arith, h, k)
count_put false c p q h k = omega (arith, h, k)

count_drop :
    (b : Bool) (c p q : ℕ)
    → c ≡ p % 2 ^ 64
    → q + one_if b ≡ p
    → (if b then int_dec c else c) ≡ q % 2 ^ 64
unfolding int_dec
count_drop true c p q h k = omega (arith, h, k)
count_drop false c p q h k = omega (arith, h, k)

module _ {F : Type 0} where
  -- How many of the entities are players.
  unfoldable pub players : Dict Str (Entity F) → ℕ
  players [] = 0
  players ((id, e) ∷ m) = one_if (is_player? e) + players m

  players-insert :
      (id : Str) (e : Entity F) (m : Dict Str (Entity F))
      → lookup id m ≡ none
      → players (insert id e m) ≡ players m + one_if (is_player? e)
  unfolding players insert lookup
  players-insert id e [] h = omega arith
  players-insert id e ((j, d) ∷ m) h = ground (arith, players-insert id e m)

  players-erase :
      (id : Str) (e : Entity F) (m : Dict Str (Entity F))
      → IsMap m
      → lookup id m ≡ some e
      → players (erase id m) + one_if (is_player? e) ≡ players m
  unfolding players erase lookup
  players-erase id e [] d h = absurd (cc)
  players-erase id e ((j, c) ∷ m) d h = elim (Str_discrete j id) [
    | yes p ↦
        let head : some c ≡ some e = rw (if_pos (Str_discrete j id) p) at h in
        let same : c ≡ e = cc in
        let gone : lookup id m ≡ none = subst (λ k. lookup k m ≡ none) p d.0 in
        rw (if_pos (Str_discrete j id) p, erase_absent id m gone)
          (omega (arith, ap (λ q. one_if (is_player? q)) same))
    | no p ↦ rw (if_neg (Str_discrete j id) p) (ground (arith, players-erase id e m d.1))
  ]

  -- A cell holds no ID twice, and its count is that of its players.
  pub record IsCounted (g : Grid F) : Type 0 where
    pub ids_map : IsMap g.entities
    pub counted : g.player_count ≡ players g.entities % 2 ^ 64

  pub put-IsCounted :
      (e : Entity F) (g : Grid F)
      → IsCounted g
      → lookup e.id g.entities ≡ none
      → IsCounted (put e g)
  unfolding put
  put-IsCounted e g v h = record {
    ids_map = insert-IsMap e.id e g.entities v.ids_map;
    counted =
        count_put (is_player? e) _ (players g.entities) _ v.counted
          (players-insert e.id e g.entities h);
  }

  -- The stored entity has the type that the entity has now.
  pub drop_entity-IsCounted :
      (e : Entity F) (g : Grid F)
      → IsCounted g
      → ((old : Entity F) → lookup e.id g.entities ≡ some old → old.type_id ≡ e.type_id)
      → IsCounted (drop_entity e g)
  unfolding drop_entity
  drop_entity-IsCounted e g v h = elim (Option-cases (lookup e.id g.entities)) [
    | inl n ↦ rw (n, drop_entity) v
    | inr (old, s) ↦
        rw (s, drop_entity)
          (record {
            ids_map = erase-IsMap e.id g.entities v.ids_map;
            counted = count_drop (is_player? e) _ (players g.entities) _ v.counted (
                ap (λ t. players (erase e.id g.entities) + one_if (t == 0)) (sym (h old s))
                ∙ players-erase e.id old g.entities v.ids_map s);
          })
  ]

  pub lookup-drop_entity :
      (e : Entity F) (g : Grid F) (id : Str)
      → lookup id (drop_entity e g).entities
        ≡ ite (Str_discrete e.id id) none (lookup id g.entities)
  unfolding drop_entity
  lookup-drop_entity e g id = elim (Option-cases (lookup e.id g.entities)) [
    | inl n ↦ rw (n, drop_entity) (ground arith)
    | inr (old, s) ↦ rw (s, drop_entity) (lookup-erase e.id id g.entities)
  ]

  -- Every cell of the grid is counted.
  abbrev pub IsSound : AoiManager F → Type 0
  IsSound m = (a b : ℕ) → IsCounted (m.grids a b)

  pub set_grid-IsSound :
      (i j : ℕ) (g : Grid F) (m : AoiManager F)
      → IsSound m
      → IsCounted g
      → IsSound (set_grid i j g m)
  unfolding set_grid
  set_grid-IsSound i j g m v w a b = elim (ℕ_discrete i a) [
    | no p ↦ rw (if_neg (ℕ_discrete i a) p) (v a b)
    | yes p ↦ rw (if_pos (ℕ_discrete i a) p) (elim (ℕ_discrete j b) [
      | no q ↦ rw (if_neg (ℕ_discrete j b) q) (v a b)
      | yes q ↦ rw (if_pos (ℕ_discrete j b) q) w
    ])
  ]

  -- An entity that has moved, as the cells hold it: nowhere but at its old cell, with its type.
  pub record IsFrom (i j : ℕ) (e : Entity F) (m : AoiManager F) : Type 0 where
    pub only : (a b : ℕ) → same_cell i j a b ≡ false → lookup e.id (m.grids a b).entities ≡ none
    pub typed :
        (a b : ℕ) (old : Entity F)
        → lookup e.id (m.grids a b).entities ≡ some old
        → old.type_id ≡ e.type_id
