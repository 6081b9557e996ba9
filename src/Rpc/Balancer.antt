-- ===== src/Rpc/Balancer.antt =====
-- pkg/rpc/load_balancer.go: `LoadBalancer` over an in-memory registry. A selector is stored as a
-- value with its counter, so one selector that two services share is not modelled.
pub mod Laws
use mmo_server.Common.{ℕ, List, [], ◌∷◌, Option, none, some, Str, Dict, str_key, lookup, insert}
use mmo_server.Rpc.Instance.{ServiceInstance}
use mmo_server.Rpc.Selector.{
  Selection, no_instances, random_select, round_robin_select, weighted_select,
}
use mmo_server.Rpc.Registry.{Registry, get_instances}

pub data Selector : Type 0 where
  random : Selector
  round_robin : ℕ → Selector
  weighted : Selector

pub record LoadBalancer : Type 0 where
  pub selectors : Dict Str Selector

unfoldable pub new_load_balancer : LoadBalancer
new_load_balancer = record { selectors = [] }

unfoldable pub set_selector : LoadBalancer → Str → Selector → LoadBalancer
set_selector lb name s = record lb { selectors = insert name s lb.selectors }

unfoldable pub select : (ℕ → ℕ) → Selector → List ServiceInstance → Selector × Selection
unfolding random_select round_robin_select weighted_select
select draw random xs = (random, random_select draw xs)
select draw (round_robin next) xs =
    let (next', selection) = round_robin_select next xs in (round_robin next', selection)
select draw weighted xs = (weighted, weighted_select draw xs)

abbrev select_with :
    (ℕ → ℕ) → LoadBalancer → Str → Option Selector → List ServiceInstance → LoadBalancer × Selection
select_with draw lb name none xs = (lb, (select draw random xs).1)
select_with draw lb name (some s) xs =
    (set_selector lb name (select draw s xs).0, (select draw s xs).1)

abbrev select_some : (ℕ → ℕ) → LoadBalancer → Str → List ServiceInstance → LoadBalancer × Selection
select_some draw lb name [] = (lb, no_instances)
select_some draw lb name (x ∷ xs) = select_with draw lb name (lookup name lb.selectors) (x ∷ xs)

-- `GetInstance`
unfoldable pub get_instance : (ℕ → ℕ) → LoadBalancer → Registry → Str → LoadBalancer × Selection
unfolding select set_selector get_instances
get_instance draw lb r name = select_some draw lb name (get_instances r name)
