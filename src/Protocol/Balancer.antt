-- ===== src/Protocol/Balancer.antt =====
-- pkg/protocol/router.go: `RoundRobinLoadBalancer` and `WeightedLoadBalancer`. The state is the map
-- of counters, which are Go ints; a negative index is a panic.
pub mod Fairness
pub mod Sound
mod Tests
use mmo_server.Common.{
  ℕ, ◌≡◌, List, [], ◌∷◌, ◌==◌, if◌then◌else◌, Option, none, some, ite, length, get_elem?, Str,
  Str_discrete, Dict, str_key, lookup, insert,
}
use mmo_server.Common.Ints.{int_add, int_lt, int_rem}
use mmo_server.Protocol.Discovery.{ServiceInstance, RouterError, no_available_instance, up}

-- The outcome of `SelectInstance`.
pub data Selection : Type 0 where
  selected : ServiceInstance → Selection
  failed : RouterError → Selection
  panic : Selection

abbrev pub Counters : Type 0
Counters = Dict Str ℕ

-- A missing counter reads as 0.
unfoldable pub count_of : Str → Counters → ℕ
count_of name counters = elim (lookup name counters) [ none ↦ 0 | some n ↦ n ]

-- The instances whose status is "up".
unfoldable pub available : List ServiceInstance → List ServiceInstance
available [] = []
available (x ∷ xs) = ite (Str_discrete x.status up) (x ∷ available xs) (available xs)

-- `&availableInstances[i]`
abbrev pub index : List ServiceInstance → ℕ → Selection
index xs i = elim (get_elem? xs i) [ none ↦ panic | some x ↦ selected x ]

-- The turn that both balancers take by count alone.
pub take_turn : Counters → Str → List ServiceInstance → Counters × Selection
take_turn counters name xs =
    let count = count_of name counters in
    (insert name (int_add count 1) counters, index xs (int_rem count (length xs)))

round_robin_from : Counters → Str → List ServiceInstance → Counters × Selection
unfolding take_turn
round_robin_from counters name [] = (counters, failed no_available_instance)
round_robin_from counters name (a ∷ rest) = take_turn counters name (a ∷ rest)

-- `RoundRobinLoadBalancer.SelectInstance`
unfoldable pub round_robin_select : Counters → List ServiceInstance → Counters × Selection
unfolding round_robin_from
round_robin_select counters [] = (counters, failed no_available_instance)
round_robin_select counters (x ∷ xs) = round_robin_from counters x.service_name (available (x ∷ xs))

unfoldable pub total_weight : List ServiceInstance → ℕ → ℕ
total_weight [] total = total
total_weight (x ∷ xs) total = total_weight xs (int_add total x.weight)

-- The loop over the running total, with the fallback to the first instance.
unfoldable pub pick_by_weight : ServiceInstance → ℕ → ℕ → List ServiceInstance → ServiceInstance
pick_by_weight first count running [] = first
pick_by_weight first count running (x ∷ xs) =
    let running' = int_add running x.weight in
    let rest = pick_by_weight first count running' xs in if int_lt count running' then x else rest

weighted_from : Counters → Str → List ServiceInstance → Counters × Selection
unfolding take_turn
weighted_from counters name [] = (counters, failed no_available_instance)
weighted_from counters name (a ∷ rest) =
    let total = total_weight (a ∷ rest) 0 in
    let count = count_of name counters in
    if total == 0 then take_turn counters name (a ∷ rest) else (
      insert name (int_add count 1) counters,
      selected (pick_by_weight a (int_rem count total) 0 (a ∷ rest)),
    )

-- `WeightedLoadBalancer.SelectInstance`
unfoldable pub weighted_select : Counters → List ServiceInstance → Counters × Selection
unfolding weighted_from
weighted_select counters [] = (counters, failed no_available_instance)
weighted_select counters (x ∷ xs) = weighted_from counters x.service_name (available (x ∷ xs))
