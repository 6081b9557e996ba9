-- ===== src/Rpc/Selector.antt =====
-- pkg/rpc/load_balancer.go: the three selectors. A draw is what `rand.Intn` returns, as a function
-- of its argument; `rand.Intn` panics where its argument is not positive.
pub mod Laws
use mmo_server.Common.{
  ℕ, suc, ◌+◌, List, [], ◌∷◌, Option, none, some, length, get_elem?, if◌then◌else◌,
}
use mmo_server.Common.Ints.{int_add, int_lt, int_rem}
use mmo_server.Rpc.Instance.{ServiceInstance}

pub data Selection : Type 0 where
  selected : ServiceInstance → Selection
  no_instances : Selection
  panic : Selection

abbrev pub index : List ServiceInstance → ℕ → Selection
index xs i = elim (get_elem? xs i) [ none ↦ panic | some x ↦ selected x ]

unfoldable pub intn : (ℕ → ℕ) → ℕ → Option ℕ
intn draw n = if int_lt 0 n then some (draw n) else none

-- `RandomSelector.Select`
unfoldable pub random_select : (ℕ → ℕ) → List ServiceInstance → Selection
random_select draw [] = no_instances
random_select draw (x ∷ xs) = elim (intn draw (length (x ∷ xs))) [
  | none ↦ panic
  | some i ↦ index (x ∷ xs) i
]

-- `RoundRobinSelector.Select`; the state is `nextIdx`.
unfoldable pub round_robin_select : ℕ → List ServiceInstance → ℕ × Selection
round_robin_select next [] = (next, no_instances)
round_robin_select next (x ∷ xs) = (int_add next 1, index (x ∷ xs) (int_rem next (length (x ∷ xs))))

-- A weight that is not positive counts as 1.
abbrev pub weight_of : ServiceInstance → ℕ
weight_of x = if int_lt 0 x.weight then x.weight else 1

unfoldable pub total_weight : List ServiceInstance → ℕ → ℕ
total_weight [] total = total
total_weight (x ∷ xs) total = total_weight xs (int_add total (weight_of x))

unfoldable pub pick : ServiceInstance → ℕ → ℕ → List ServiceInstance → ServiceInstance
pick first target current [] = first
pick first target current (x ∷ xs) =
    let current' = int_add current (weight_of x) in
    let rest = pick first target current' xs in if int_lt target current' then x else rest

-- `WeightedSelector.Select`
unfoldable pub weighted_select : (ℕ → ℕ) → List ServiceInstance → Selection
weighted_select draw [] = no_instances
weighted_select draw (x ∷ xs) = elim (intn draw (total_weight (x ∷ xs) 0)) [
  | none ↦ panic
  | some target ↦ selected (pick x target 0 (x ∷ xs))
]
