-- ===== src/Rpc/Selector/Laws.antt =====
-- What the selectors of pkg/rpc/load_balancer.go choose.
use native.Mathlib.Nat.{zero-add}
use mmo_server.Common.{
  ℕ, zero, suc, ◌+◌, ◌-◌, ◌%◌, ◌≤◌, ◌<◌, ◌≡◌, refl, ap, ◌∙◌, List, [], ◌∷◌, ◌++◌, map, Option, none,
  some, length, get_elem?, take, drop, replicate, ltb, if◌then◌else◌, arith,
}
use mmo_server.Common.Ints.{int_max, int_add, int_lt, int_add_small, int_lt_small, int_rem_small}
use mmo_server.Common.Rotation.{turns, turns_all}
use mmo_server.Rpc.Instance.{ServiceInstance}
use mmo_server.Rpc.Selector.{
  Selection, selected, panic, intn, random_select, round_robin_select, weight_of, total_weight,
  pick, weighted_select,
}

outcome : Option ServiceInstance → Selection
outcome none = panic
outcome (some x) = selected x

unfoldable pub run : ℕ → List ServiceInstance → ℕ → List Selection
run next xs zero = []
run next xs (suc k) = (round_robin_select next xs).1 ∷ run (round_robin_select next xs).0 xs k

run-turns :
    (xs : List ServiceInstance) (next k : ℕ)
    → 0 < length xs
    → length xs ≤ int_max
    → next + k ≤ int_max
    → run next xs k ≡ map outcome (turns xs next k)
unfolding run turns outcome round_robin_select
run-turns xs next zero p q r = refl
run-turns [] next (suc k) p q r = absurd (omega arith)
run-turns (x ∷ xs) next (suc k) p q r =
    rw
      (
        int_add_small next 1 (omega arith),
        int_rem_small next (length (x ∷ xs)) (omega arith) q,
        run-turns (x ∷ xs) (next + 1) k p q (omega arith),
      )
      (ground arith)

map-outcome-some : (l : List ServiceInstance) → map outcome (map some l) ≡ map selected l
unfolding outcome
map-outcome-some [] = refl
map-outcome-some (x ∷ l) = ap (◌∷◌ (selected x)) (map-outcome-some l)

-- As many selections of `RoundRobinSelector` as there are instances, while its counter does not
-- overflow: each instance is selected once, in the order of the list, from the counter's place on
-- and around its end.
pub selector_fair :
    (xs : List ServiceInstance) (next : ℕ)
    → 0 < length xs
    → next + length xs ≤ int_max
    → run next xs (length xs)
      ≡ map selected (drop (next % length xs) xs ++ take (next % length xs) xs)
selector_fair xs next p h =
    run-turns xs next (length xs) p (omega arith) h
    ∙ ap (map outcome) (turns_all xs next p)
    ∙ map-outcome-some (drop (next % length xs) xs ++ take (next % length xs) xs)

-- Each instance as often as its weight, or once where that is not positive.
unfoldable pub expand : List ServiceInstance → List ServiceInstance
expand [] = []
expand (x ∷ xs) = replicate (weight_of x) x ++ expand xs

abbrev pub weights : List ServiceInstance → ℕ
weights [] = 0
weights (x ∷ xs) = weight_of x + weights xs

total-weights :
    (xs : List ServiceInstance) (t : ℕ)
    → t + weights xs ≤ int_max
    → total_weight xs t ≡ t + weights xs
unfolding total_weight
total-weights [] t h = omega arith
total-weights (x ∷ xs) t h =
    rw (int_add_small t (weight_of x) (omega arith))
      (omega (arith, total-weights xs (t + weight_of x) (omega arith)))

get-replicate_append :
    (w i : ℕ) (x : ServiceInstance) (ys : List ServiceInstance)
    → get_elem? (replicate w x ++ ys) i ≡ (if ltb i w then some x else get_elem? ys (i - w))
get-replicate_append zero i x ys = ground arith
get-replicate_append (suc w) zero x ys = ground arith
get-replicate_append (suc w) (suc i) x ys = ground (arith, get-replicate_append w i x ys)

sub_sub : (a b c : ℕ) → a - b - c ≡ a - (b + c)
sub_sub a b c = omega arith

pick-step :
    (first x : ServiceInstance) (w : ℕ) (xs : List ServiceInstance) (target current : ℕ)
    → current ≤ target
    → current + w + weights xs ≤ int_max
    → target < current + w + weights xs
    → (current + w ≤ target
        → get_elem? (expand xs) (target - (current + w))
          ≡ some (pick first target (current + w) xs))
    → get_elem? (replicate w x ++ expand xs) (target - current)
      ≡ some (
          if int_lt target (int_add current w) then x else pick first target (int_add current w) xs)
pick-step first x w xs target current p r q rest =
    rw
      (
        get-replicate_append w (target - current) x (expand xs),
        int_add_small current w (omega arith),
        int_lt_small target (current + w) (omega arith) (omega arith),
      )
      (ground (arith, sub_sub target current w))

pick-expand :
    (first : ServiceInstance) (xs : List ServiceInstance) (target current : ℕ)
    → current ≤ target
    → target < current + weights xs
    → current + weights xs ≤ int_max
    → get_elem? (expand xs) (target - current) ≡ some (pick first target current xs)
unfolding pick expand
pick-expand first [] target current p q r = absurd (omega arith)
pick-expand first (x ∷ xs) target current p q r =
    pick-step first x (weight_of x) xs target current p (omega arith) (omega arith)
      λ h. pick-expand first xs target (current + weight_of x) h (omega arith) (omega arith)

weights-pos : (x : ServiceInstance) (xs : List ServiceInstance) → 0 < weights (x ∷ xs)
weights-pos x xs = ground arith

intn-some : (draw : ℕ → ℕ) (n : ℕ) → 0 < n → n ≤ int_max → intn draw n ≡ some (draw n)
unfolding intn
intn-some draw n p h = ground arith

get_elem?-in_range :
    (xs : List ServiceInstance) (i : ℕ)
    → i < length xs
    → (y : ServiceInstance) × (get_elem? xs i ≡ some y)
get_elem?-in_range [] i h = absurd (omega arith)
get_elem?-in_range (x ∷ xs) zero h = (x, refl)
get_elem?-in_range (x ∷ xs) (suc i) h = get_elem?-in_range xs i (omega arith)

-- `WeightedSelector` selects the instance at the drawn place of the list in which each instance
-- stands as often as its weight, or once where that is not positive: of the equally likely draws
-- below the sum of the weights, as many fall on an instance as its weight. The sum must not
-- overflow, and the draw must be below it.
pub weighted_select-expand :
    (draw : ℕ → ℕ) (x : ServiceInstance) (xs : List ServiceInstance)
    → weights (x ∷ xs) ≤ int_max
    → draw (weights (x ∷ xs)) < weights (x ∷ xs)
    → (y : ServiceInstance) × (get_elem? (expand (x ∷ xs)) (draw (weights (x ∷ xs))) ≡ some y)
      × (weighted_select draw (x ∷ xs) ≡ selected y)
unfolding weighted_select
weighted_select-expand draw x xs h d =
    let total = total-weights (x ∷ xs) 0 (omega arith) ∙ zero-add (weights (x ∷ xs)) in
    let target = draw (weights (x ∷ xs)) in
    let same : target ≡ target - 0 = omega arith in
    (
      pick x target 0 (x ∷ xs),
      ap (get_elem? (expand (x ∷ xs))) same
          ∙ pick-expand x (x ∷ xs) target 0 (omega arith) (omega arith) (omega arith),
      rw (
        total,
        weighted_select,
        intn-some draw (weights (x ∷ xs)) (weights-pos x xs) h,
        weighted_select,
      ),
    )

-- `RandomSelector` selects the instance at the drawn place, if the draw is below the length.
pub random_select-index :
    (draw : ℕ → ℕ) (x : ServiceInstance) (xs : List ServiceInstance)
    → length (x ∷ xs) ≤ int_max
    → draw (length (x ∷ xs)) < length (x ∷ xs)
    → (y : ServiceInstance) × (get_elem? (x ∷ xs) (draw (length (x ∷ xs))) ≡ some y)
      × (random_select draw (x ∷ xs) ≡ selected y)
unfolding random_select
random_select-index draw x xs h d =
    let (y, found) = get_elem?-in_range (x ∷ xs) (draw (length (x ∷ xs))) d in
    (
      y,
      found,
      rw (intn-some draw (length (x ∷ xs)) (omega arith) h, random_select)
          (ap (λ o. elim o [ none ↦ panic | some z ↦ selected z ]) found),
    )
