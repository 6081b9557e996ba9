-- ===== src/Aoi/Range.antt =====
-- Which cells the loops of `GetSurroundingGridsByRange` of pkg/aoi/aoi.go visit.
use mmo_server.Common.{
  ℕ, zero, suc, ◌+◌, ◌-◌, ◌*◌, ◌%◌, ◌^◌, ◌≤◌, ◌<◌, ◌≡◌, ◌≢◌, inl, inr, refl, sym, ap, ap₂, ◌∙◌,
  Bool, true, false, ◌&&◌, List, [], ◌∷◌, ◌++◌, leb, ltb, ◌==◌, if◌then◌else◌, Bool-cases, arith,
}
use mmo_server.Common.Ints.{int_add, int_lt, int_max}
use mmo_server.Aoi.{AoiManager}
use mmo_server.Aoi.Query.{
  int_sub, values, turns, around, in_bounds?, row, rows, surrounding_by_range,
}

abbrev pub shifted : ℕ → ℕ
shifted a = (a + 2 ^ 63) % 2 ^ 64

abbrev pub bit : Bool → ℕ
bit b = if b then 1 else 0

unfoldable pub occurrences : ℕ → List ℕ → ℕ
occurrences a [] = 0
occurrences a (x ∷ xs) = bit (x == a) + occurrences a xs

shifted-next : (x : ℕ) → x < 2 ^ 64 → shifted x + 1 < 2 ^ 64 → shifted (int_add x 1) ≡ shifted x + 1
unfolding int_add
shifted-next x p h = omega arith

shifted-injective : (x a : ℕ) → x < 2 ^ 64 → a < 2 ^ 64 → shifted x ≡ shifted a → x ≡ a
shifted-injective x a p q h = omega arith

eq-shifted : (x a : ℕ) → x < 2 ^ 64 → a < 2 ^ 64 → (x == a) ≡ (shifted x == shifted a)
eq-shifted x a p q = elim (Bool-cases (shifted x == shifted a)) [
  | inl h ↦ let same : x ≡ a = shifted-injective x a p q (ground arith) in ground (arith, same)
  | inr h ↦ let other : x ≢ a = λ e. absurd (ground (arith, ap shifted e)) in ground (arith, other)
]

from_next :
    (x a last : ℕ)
    → x ≤ last
    → bit (x == a) + bit (leb (x + 1) a && leb a last) ≡ bit (leb x a && leb a last)
from_next x a last h = ground arith

occurrences-values :
    (a n x last : ℕ)
    → a < 2 ^ 64
    → x < 2 ^ 64
    → shifted last + 1 < 2 ^ 64
    → shifted last + 1 ≤ n + shifted x
    → occurrences a (values n x last)
      ≡ bit (leb (shifted x) (shifted a) && leb (shifted a) (shifted last))
unfolding values occurrences
occurrences-values a zero x last p q s h = ground arith
occurrences-values a (suc n) x last p q s h = elim (Bool-cases (int_lt last x)) [
  | inl e ↦ rw e (ground arith)
  | inr e ↦
      let order : shifted x ≤ shifted last = ground arith in
      let next = shifted-next x q (omega arith) in
      let rest =
        occurrences-values a n (int_add x 1) last p (unfold int_add in omega arith) s
          (rw next (omega arith)) in
      rw e (
        ap₂ (λ b k. bit b + k) (eq-shifted x a q p) (rest ∙ rw next refl)
        ∙ from_next (shifted x) (shifted a) (shifted last) order)
]

-- No further away than the range, along one axis.
abbrev pub near? : ℕ → ℕ → ℕ → Bool
near? range c a = leb c (a + range) && leb a (c + range)

occurrences-around :
    (a c range : ℕ)
    → a ≤ int_max
    → c + range < int_max
    → occurrences a (around c range) ≡ bit (near? range c a)
occurrences-around a c range h k =
    let first : shifted (int_sub c range) ≡ c + 2 ^ 63 - range = omega arith in
    let last : shifted (int_add c range) ≡ c + range + 2 ^ 63 = unfold int_add in omega arith in
    let count : turns (int_sub c range) (int_add c range) ≡ 2 * range + 1 =
      unfold int_add in omega arith in
    occurrences-values a (turns (int_sub c range) (int_add c range)) (int_sub c range)
      (int_add c range) (omega arith) (omega arith) (omega arith) (omega arith)
    ∙ rw (first, last) (ground arith)

bit-and : (p q : Bool) → bit p * bit q ≡ bit (p && q)
bit-and true q = omega arith
bit-and false q = omega arith

-- How often the cell stands in the list.
unfoldable pub visits : ℕ → ℕ → List (ℕ × ℕ) → ℕ
visits a b [] = 0
visits a b ((x, y) ∷ cells) = bit ((x == a) && (y == b)) + visits a b cells

visits-append :
    (a b : ℕ) (xs ys : List (ℕ × ℕ)) → visits a b (xs ++ ys) ≡ visits a b xs + visits a b ys
unfolding visits
visits-append a b [] ys = omega arith
visits-append a b ((x, y) ∷ xs) ys = rw (visits-append a b xs ys) (omega arith)

abbrev pub inside? : ℕ → ℕ → ℕ → Bool
inside? count a b = in_bounds? count a && in_bounds? count b

same-inside :
    (count a b x y : ℕ) → ((x == a) && (y == b)) ≡ true → inside? count a b ≡ inside? count x y
same-inside count a b x y h =
    let e : x ≡ a = ground arith in
    let f : y ≡ b = ground arith in ap₂ (inside? count) (sym e) (sym f)

visit :
    (p q i : Bool) (n : ℕ)
    → ((p && q) ≡ true → i ≡ true)
    → bit (p && q) + (if i then bit p * n else 0) ≡ (if i then bit p * (bit q + n) else 0)
visit true q true n h = omega arith
visit true true false n h = absurd (ground (arith, h refl))
visit true false false n h = refl
visit false q true n h = omega arith
visit false q false n h = refl

no_visit :
    (p q i : Bool) (n : ℕ)
    → ((p && q) ≡ true → i ≡ false)
    → (if i then bit p * n else 0) ≡ (if i then bit p * (bit q + n) else 0)
no_visit true true true n h = absurd (ground (arith, h refl))
no_visit true false true n h = omega arith
no_visit false q true n h = omega arith
no_visit p q false n h = refl

visits-row :
    (count a b x : ℕ) (ys : List ℕ)
    → visits a b (row count x ys)
      ≡ (if inside? count a b then bit (x == a) * occurrences b ys else 0)
unfolding visits row occurrences
visits-row count a b x [] = elim (Bool-cases (inside? count a b)) [
  | inl e ↦ rw e (omega arith)
  | inr e ↦ rw e refl
]
visits-row count a b x (y ∷ ys) = elim (Bool-cases (inside? count x y)) [
  | inl e ↦ rw e (
      ap (λ n. bit ((x == a) && (y == b)) + n) (visits-row count a b x ys)
      ∙ visit (x == a) (y == b) (inside? count a b) (occurrences b ys)
          (λ h. same-inside count a b x y h ∙ e))
  | inr e ↦ rw e (
      visits-row count a b x ys
      ∙ no_visit (x == a) (y == b) (inside? count a b) (occurrences b ys)
          (λ h. same-inside count a b x y h ∙ e))
]

in_bounds-ltb : (count a : ℕ) → count ≤ int_max → in_bounds? count a ≡ ltb a count
in_bounds-ltb count a h = ground arith

add_rows :
    (i : Bool) (m n o : ℕ)
    → (if i then m * o else 0) + (if i then n * o else 0) ≡ (if i then (m + n) * o else 0)
add_rows true m n o = grind arith
add_rows false m n o = refl

visits-rows :
    (count a b : ℕ) (xs ys : List ℕ)
    → visits a b (rows count xs ys)
      ≡ (if inside? count a b then occurrences a xs * occurrences b ys else 0)
unfolding rows occurrences
visits-rows count a b [] ys =
    unfold visits in
    elim (Bool-cases (inside? count a b)) [ inl e ↦ rw e (omega arith) | inr e ↦ rw e refl ]
visits-rows count a b (x ∷ xs) ys =
    visits-append a b (row count x ys) (rows count xs ys)
    ∙ ap₂ (λ m n. m + n) (visits-row count a b x ys) (visits-rows count a b xs ys)
    ∙ add_rows (inside? count a b) (bit (x == a)) (occurrences a xs) (occurrences b ys)

-- Around a cell, with a range that does not take the sums over the greatest int, the loops visit a
-- cell once if it is in the grid and no further away than the range along both axes, and never
-- otherwise.
pub surrounding_by_range-visits :
    {F : Type 0} (m : AoiManager F) (i j range a b : ℕ)
    → m.grid_count ≤ int_max
    → i + range < int_max
    → j + range < int_max
    → visits a b (surrounding_by_range m i j range)
      ≡ bit (ltb a m.grid_count && ltb b m.grid_count && near? range i a && near? range j b)
unfolding surrounding_by_range
surrounding_by_range-visits m i j range a b h p q =
    visits-rows m.grid_count a b (around i range) (around j range)
    ∙ ap₂
        (λ p q.
          if p && q then occurrences a (around i range) * occurrences b (around j range) else 0)
        (in_bounds-ltb m.grid_count a h) (in_bounds-ltb m.grid_count b h)
    ∙ elim (Bool-cases (ltb a m.grid_count && ltb b m.grid_count)) [
      | inl e ↦
          let in_a = occurrences-around a i range (ground arith) p in
          let in_b = occurrences-around b j range (ground arith) q in
          rw (e, in_a, in_b) (bit-and (near? range i a) (near? range j b))
      | inr e ↦ rw e refl
    ]
