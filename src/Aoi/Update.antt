-- ===== src/Aoi/Update.antt =====
-- `UpdateEntity` of pkg/aoi/aoi.go keeps the cells in order.
use mmo_server.Common.{
  ℕ, ◌≡◌, inl, inr, refl, sym, ap, subst, ◌∙◌, true, false, Option, none, some, ite, if_pos, if_neg,
  Str, Str_discrete, ℕ_discrete, str_key, lookup, lookup-insert, Bool-cases, arith,
}
use mmo_server.Aoi.{
  Float, Entity, Grid, AoiManager, Place, at, outside, panic, set_grid, put, drop_entity, get_grid,
  same_cell, move, update_entity,
}
use mmo_server.Aoi.Laws.{
  IsSound, IsFrom, put-IsCounted, drop_entity-IsCounted, lookup-drop_entity, set_grid-IsSound,
}

module _ {F : Type 0} where
  -- An entity is in no cell but the given one.
  abbrev pub OnlyAt : ℕ → ℕ → Entity F → AoiManager F → Type 0
  OnlyAt k l e m = (a b : ℕ) → same_cell k l a b ≡ false → lookup e.id (m.grids a b).entities ≡ none

  not_set :
      (k l a b : ℕ) (g : Grid F) (m : AoiManager F)
      → same_cell k l a b ≡ false
      → (set_grid k l g m).grids a b ≡ m.grids a b
  unfolding set_grid
  not_set k l a b g m h = elim (ℕ_discrete k a) [
    | no p ↦ rw (if_neg (ℕ_discrete k a) p) refl
    | yes p ↦ rw (if_pos (ℕ_discrete k a) p) (elim (ℕ_discrete l b) [
      | no q ↦ rw (if_neg (ℕ_discrete l b) q) refl
      | yes q ↦ absurd (ground arith)
    ])
  ]

  is_set :
      (k l a b : ℕ) (g : Grid F) (m : AoiManager F)
      → same_cell k l a b ≡ true
      → (set_grid k l g m).grids a b ≡ g
  unfolding set_grid
  is_set k l a b g m h = elim (ℕ_discrete k a) [
    | no p ↦ absurd (ground arith)
    | yes p ↦ rw (if_pos (ℕ_discrete k a) p) (elim (ℕ_discrete l b) [
      | no q ↦ absurd (ground arith)
      | yes q ↦ rw (if_pos (ℕ_discrete l b) q) refl
    ])
  ]

  dropped :
      (i j : ℕ) (e : Entity F) (m : AoiManager F) (a b : ℕ)
      → IsFrom i j e m
      → lookup e.id ((set_grid i j (drop_entity e (m.grids i j)) m).grids a b).entities ≡ none
  dropped i j e m a b f = elim (Bool-cases (same_cell i j a b)) [
    | inr h ↦
        ap (λ c. lookup e.id c.entities) (not_set i j a b (drop_entity e (m.grids i j)) m h)
        ∙ f.only a b h
    | inl h ↦
        ap (λ c. lookup e.id c.entities) (is_set i j a b (drop_entity e (m.grids i j)) m h)
        ∙ lookup-drop_entity e (m.grids i j) e.id
        ∙ if_pos (Str_discrete e.id e.id) refl _ _
  ]

  move-IsSound :
      (i j k l : ℕ) (e : Entity F) (m : AoiManager F)
      → IsSound m
      → IsFrom i j e m
      → IsSound (move i j k l e m) × OnlyAt k l e (move i j k l e m)
  unfolding move
  move-IsSound i j k l e m v f = elim (Bool-cases (same_cell i j k l)) [
    | inl h ↦ rw h (v, λ a b n. f.only a b (ground arith))
    | inr h ↦
        let g = drop_entity e (m.grids i j) in
        let m1 = set_grid i j g m in
        let v1 =
          set_grid-IsSound i j g m v
            (drop_entity-IsCounted e (m.grids i j) (v i j) (f.typed i j)) in
        rw h (
          set_grid-IsSound k l (put e (m1.grids k l)) m1 v1
              (put-IsCounted e (m1.grids k l) (v1 k l) (dropped i j e m k l f)),
          λ a b n.
              ap (λ c. lookup e.id c.entities) (not_set k l a b (put e (m1.grids k l)) m1 n)
              ∙ dropped i j e m a b f,
        )
  ]

lookup-put :
    {F : Type 0} (e : Entity F) (g : Grid F) (id : Str)
    → lookup id (put e g).entities ≡ ite (Str_discrete e.id id) (some e) (lookup id g.entities)
unfolding put
lookup-put e g id = lookup-insert e.id id e g.entities

-- An entity that is put into a cell of a grid that does not hold it stands there alone.
pub put-IsFrom :
    {F : Type 0} (i j : ℕ) (e e' : Entity F) (m : AoiManager F)
    → e.id ≡ e'.id
    → e.type_id ≡ e'.type_id
    → ((a b : ℕ) → lookup e'.id (m.grids a b).entities ≡ none)
    → IsFrom i j e' (set_grid i j (put e (m.grids i j)) m)
put-IsFrom i j e e' m same type free = record {
  only = λ a b n.
      ap (λ c. lookup e'.id c.entities) (not_set i j a b (put e (m.grids i j)) m n) ∙ free a b;
  typed = λ a b old s. elim (Bool-cases (same_cell i j a b)) [
    | inl h ↦
        let here : lookup e'.id (put e (m.grids i j)).entities ≡ some old =
          sym (ap (λ c. lookup e'.id c.entities) (is_set i j a b (put e (m.grids i j)) m h)) ∙ s in
        let found : some e ≡ some old =
          sym (lookup-put e (m.grids i j) e'.id ∙ if_pos (Str_discrete e.id e'.id) same _ _)
          ∙ here in
        let this : e ≡ old = cc in sym (ap (λ x. x.type_id) this) ∙ type
    | inr h ↦
        let none_here =
          sym (ap (λ c. lookup e'.id c.entities) (not_set i j a b (put e (m.grids i j)) m h)) ∙ s in
        absurd (ground (arith, none_here, free a b))
  ];
}

placed :
    {A : Type 0} (q : Place) (f : ℕ → ℕ → A) (y : A)
    → elim q [ at k l ↦ some (f k l) | outside ↦ none | panic ↦ none ] ≡ some y
    → (k : ℕ) × (l : ℕ) × (q ≡ at k l) × (f k l ≡ y)
placed (at k l) f y e = (k, l, refl, cc)
placed outside f y e = absurd (cc)
placed panic f y e = absurd (cc)

-- `UpdateEntity` of an entity that no cell holds but that of its old position, and whose type has
-- not changed: if it succeeds, no cell holds an ID twice, every cell's count is that of its players
-- (modulo 2^64), as before, and no cell holds the entity but that of its new position.
pub update_entity-IsSound :
    {F : Type 0} (fl : Float F) (m m' : AoiManager F) (e : Entity F) (old_x old_z : F) (i j : ℕ)
    → IsSound m
    → IsFrom i j e m
    → get_grid fl m old_x old_z ≡ at i j
    → update_entity fl m e old_x old_z ≡ some m'
    → IsSound m' × ((k : ℕ) × (l : ℕ) × (get_grid fl m e.x e.z ≡ at k l) × OnlyAt k l e m')
unfolding update_entity
update_entity-IsSound {F} fl m m' e old_x old_z i j v f s u =
    let (k, l, here, moved) =
      placed (get_grid fl m e.x e.z) (λ k l. move i j k l e m) m'
        (sym (ap (λ q. from_old q) s) ∙ u) in
    let (sound, only) = move-IsSound i j k l e m v f in
    (subst IsSound moved sound, (k, l, here, subst (OnlyAt k l e) moved only))
  where
    from_old : Place → Option (AoiManager F)
    from_old q = elim q [
      | at i' j' ↦ elim (get_grid fl m e.x e.z) [
        | at k l ↦ some (move i' j' k l e m)
        | outside ↦ none
        | panic ↦ none
      ]
      | outside ↦ none
      | panic ↦ none
    ]
