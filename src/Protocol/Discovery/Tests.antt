-- ===== src/Protocol/Discovery/Tests.antt =====
-- The in-memory registry of pkg/protocol/router.go at work.
use mmo_server.Common.{ℕ, ◌≡◌, refl, [], ◌∷◌, Str, Str_discrete, ℕ_discrete, lookup, insert}
use mmo_server.Protocol.Discovery.{
  ServiceInstance, Discovery, ok, err, up, new_discovery, register_service_instance,
  deregister_service_instance, get_service_instances, watch_service, instance_not_found,
}
use mmo_server.Protocol.Discovery.Laws.{
  find, IsValid, Deregisters, register-IsValid, deregister-find,
}

program : Unit {0}
unfolding lookup insert Str_discrete ℕ_discrete new_discovery register_service_instance
    deregister_service_instance get_service_instances watch_service find
program = tt

abbrev game : Str
game = b'g' ∷ []

abbrev node : ℕ → ServiceInstance
node n = record {
  id = n ∷ [];
  service_name = game;
  address = [];
  weight = 1;
  status = up;
  last_seen = 0;
  metadata = [];
}

abbrev sd0 : Discovery
sd0 = record { instances = []; watches = (game, 9 ∷ []) ∷ [] }

abbrev sd1 : Discovery
sd1 = record sd0 { instances = (game, node 1 ∷ []) ∷ [] }

registered : register_service_instance sd0 (node 1) ≡ (sd1, (9, node 1 ∷ []) ∷ [])
unfolding program
registered = refl

-- The last instance of a service leaves an empty list behind, and no error.
emptied :
    deregister_service_instance sd1 (1 ∷ [])
    ≡ ok (record sd0 { instances = (game, []) ∷ [] }, (9, []) ∷ [])
unfolding program
emptied = refl

unknown : deregister_service_instance sd1 (2 ∷ []) ≡ err (instance_not_found (2 ∷ []))
unfolding program
unknown = refl

sd0-IsValid : IsValid sd0
unfolding program
sd0-IsValid = record { services = tt; listed = λ name. tt }

sd1-IsValid : IsValid sd1
unfolding program
sd1-IsValid = register-IsValid sd0 (node 1) sd0-IsValid

deregister-find_example : Deregisters sd1 (1 ∷ []) (deregister_service_instance sd1 (1 ∷ []))
deregister-find_example = deregister-find sd1 (1 ∷ []) sd1-IsValid
