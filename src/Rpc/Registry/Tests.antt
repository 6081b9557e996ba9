-- ===== src/Rpc/Registry/Tests.antt =====
-- The registry and the selectors of pkg/rpc/load_balancer.go on a service with two instances.
use mmo_server.Common.{
  ℕ, ◌≡◌, ◌≢◌, refl, [], ◌∷◌, some, Str, Str_discrete, ℕ_discrete, lookup, insert, arith, str_key,
}
use mmo_server.Common.Ints.{int_add, int_rem}
use mmo_server.Rpc.Instance.{ServiceInstance, down, active}
use mmo_server.Rpc.Selector.{
  selected, intn, random_select, round_robin_select, total_weight, pick, weighted_select,
}
use mmo_server.Rpc.Selector.Laws.{run, expand, weighted_select-expand}
use mmo_server.Rpc.Registry.{
  Registry, new_registry, deliver, notify_watchers, upsert, register, mark_down, find_service,
  deregister, get_instances, has_down, clean_service, cleanup, watch_service,
}
use mmo_server.Rpc.Registry.View.{stored, find}
use mmo_server.Rpc.Registry.Laws.{
  IsValid, Deregisters, cleanup-active, register-get_instances, deregister-get_instances,
}
use mmo_server.Rpc.Balancer.{
  LoadBalancer, round_robin, new_load_balancer, set_selector, select, get_instance,
}
use mmo_server.Rpc.Balancer.Laws.{Holds, get_instance-active}

program : Unit {0}
unfolding lookup insert Str_discrete ℕ_discrete int_add int_rem active intn random_select
    round_robin_select total_weight pick weighted_select run expand new_registry deliver
    notify_watchers upsert register mark_down find_service deregister get_instances has_down
    clean_service cleanup watch_service find set_selector select get_instance new_load_balancer
program = tt

abbrev game : Str
game = b'g' ∷ []

abbrev node : ℕ → ℕ → Str → ServiceInstance
node n w s = record { id = n ∷ []; name = game; endpoint = []; tags = []; weight = w; status = s }

abbrev n1 : ServiceInstance
n1 = node 1 2 []

abbrev n2 : ServiceInstance
n2 = node 2 1 []

abbrev r1 : Registry
r1 = register new_registry n1

abbrev r2 : Registry
r2 = register r1 n2

two_nodes : get_instances r2 game ≡ n1 ∷ n2 ∷ []
unfolding program
two_nodes = refl

new-IsValid : IsValid new_registry
unfolding program
new-IsValid = record { services_map = tt; distinct = λ name. tt }

r1-IsValid : IsValid r1
r1-IsValid = (register-get_instances new_registry n1 game (1 ∷ []) new-IsValid).0

r2-IsValid : IsValid r2
r2-IsValid = (register-get_instances r1 n2 game (2 ∷ []) r1-IsValid).0

register-get_instances_example : IsValid r2 × (find (2 ∷ []) (get_instances r2 game) ≡ some n2)
unfolding program
register-get_instances_example = register-get_instances r1 n2 game (2 ∷ []) r1-IsValid

deregister-get_instances_example : Deregisters r2 (1 ∷ []) (deregister r2 (1 ∷ []))
deregister-get_instances_example = deregister-get_instances r2 (1 ∷ []) r2-IsValid

abbrev half_down : Registry
half_down = record { services = (game, node 1 2 down ∷ n2 ∷ []) ∷ []; watches = [] }

cleanup-active_example :
    (stored (cleanup half_down) game ≡ n2 ∷ []) × (get_instances (cleanup half_down) game ≡ n2 ∷ [])
unfolding program
cleanup-active_example = cleanup-active half_down game (refl, tt)

weighted_select-expand_example :
    (y : ServiceInstance) × (some n2 ≡ some y)
    × (weighted_select (λ n. 2) (n1 ∷ n2 ∷ []) ≡ selected y)
unfolding program
weighted_select-expand_example =
    weighted_select-expand (λ n. 2) n1 (n2 ∷ []) (omega arith) (omega arith)

abbrev balancer : LoadBalancer
balancer = record { selectors = (game, round_robin 1) ∷ [] }

get_instance-active_example : (n2.status ≢ down) × Holds (stored r2 game) n2
unfolding program
get_instance-active_example = get_instance-active (λ n. 0) balancer r2 game n2 refl
