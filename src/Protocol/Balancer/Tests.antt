-- ===== src/Protocol/Balancer/Tests.antt =====
-- The balancers of pkg/protocol/router.go on three instances, one of them down.
use mmo_server.Common.{
  ℕ, ◌≡◌, refl, List, [], ◌∷◌, Str, Str_discrete, ℕ_discrete, lookup, insert, arith,
}
use mmo_server.Common.Ints.{int_add, int_rem}
use mmo_server.Protocol.Discovery.{ServiceInstance, up, no_available_instance}
use mmo_server.Protocol.Balancer.{
  selected, failed, count_of, available, round_robin_select, total_weight, pick_by_weight,
  weighted_select,
}
use mmo_server.Protocol.Balancer.Fairness.{run, expand, round_robin_fair, weighted_fair}

program : Unit {0}
unfolding lookup insert Str_discrete ℕ_discrete int_add int_rem count_of available
    round_robin_select total_weight pick_by_weight weighted_select run expand
program = tt

abbrev game : Str
game = b'g' ∷ []

abbrev node : ℕ → ℕ → Str → ServiceInstance
node n w s = record {
  id = n ∷ [];
  service_name = game;
  address = [];
  weight = w;
  status = s;
  last_seen = 0;
  metadata = [];
}

abbrev n1 : ServiceInstance
n1 = node 1 2 up

abbrev n2 : ServiceInstance
n2 = node 2 1 (b'd' ∷ [])

abbrev n3 : ServiceInstance
n3 = node 3 1 up

abbrev nodes : List ServiceInstance
nodes = n1 ∷ n2 ∷ n3 ∷ []

-- All down.
none_up : run round_robin_select [] (n2 ∷ []) 1 ≡ failed no_available_instance ∷ []
unfolding program
none_up = refl

weighted_run : run weighted_select [] nodes 3 ≡ selected n1 ∷ selected n1 ∷ selected n3 ∷ []
unfolding program
weighted_run = refl

round_robin_fair_example :
    run round_robin_select ((game, 5) ∷ []) nodes 2 ≡ selected n3 ∷ selected n1 ∷ []
unfolding program
round_robin_fair_example =
    round_robin_fair n1 (n2 ∷ n3 ∷ []) ((game, 5) ∷ []) (omega arith) (omega arith)

weighted_fair_example :
    run weighted_select ((game, 5) ∷ []) nodes 3 ≡ selected n3 ∷ selected n1 ∷ selected n1 ∷ []
unfolding program
weighted_fair_example = weighted_fair n1 (n2 ∷ n3 ∷ []) ((game, 5) ∷ []) (omega arith) (omega arith)
