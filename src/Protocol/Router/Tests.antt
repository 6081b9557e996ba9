-- ===== src/Protocol/Router/Tests.antt =====
-- The router of pkg/protocol/router.go with the in-memory registry and the round-robin balancer.
use mmo_server.Common.{
  ◌≡◌, ◌↔◌, ◌≢◌, refl, inl, true, List, [], ◌∷◌, some, Str, Str_discrete, ℕ_discrete, lookup,
  insert,
}
use mmo_server.Common.Ints.{int_add, int_rem}
use mmo_server.Protocol.Message.{Message, new_message}
use mmo_server.Protocol.Discovery.{
  ServiceInstance, Discovery, ok, up, get_service_instances, new_discovery,
  register_service_instance,
}
use mmo_server.Protocol.Discovery.Laws.{IsValid, register-IsValid}
use mmo_server.Protocol.Balancer.{count_of, available, round_robin_select}
use mmo_server.Protocol.Router.{
  ServiceMap, register_service_type, get_service_name, reply, route, route_async, broadcast,
  fill_destination, response,
}
use mmo_server.Protocol.Router.Laws.{
  expected_response, Reaches, Answers, IsTarget, route-reply_iff, route-in_memory,
  broadcast-reply_iff,
}

program : Unit {0}
unfolding lookup insert Str_discrete ℕ_discrete int_add int_rem count_of available
    round_robin_select get_service_instances new_discovery register_service_instance new_message
    register_service_type get_service_name fill_destination response route route_async broadcast
program = tt

abbrev game : Str
game = b'g' ∷ []

abbrev node : ServiceInstance
node = record {
  id = 1 ∷ [];
  service_name = game;
  address = [];
  weight = 1;
  status = up;
  last_seen = 0;
  metadata = [];
}

abbrev sd : Discovery
sd = record { instances = (game, node ∷ []) ∷ []; watches = [] }

abbrev services : ServiceMap
services = (3, game) ∷ []

abbrev request : Message
request = record {
  version = 1;
  flags = 0;
  service_type = 3;
  message_type = 7;
  sequence_id = 9;
  timestamp = 100;
  payload_length = 0;
  source_service = b'a' ∷ [];
  destination_service = [];
  correlation_id = b'c' ∷ [];
  session_id = b's' ∷ [];
  payload = [];
}

sd-IsValid : IsValid sd
unfolding program
sd-IsValid = register-IsValid new_discovery node (record { services = tt; listed = λ name. tt })

reached : Reaches (get_service_instances sd) round_robin_select services [] request game node
unfolding program
reached = (node ∷ [], refl, refl, refl)

routed :
    (route (get_service_instances sd) round_robin_select services [] request 200 true).result
    ≡ reply (expected_response 200 game request, node)
unfolding program
routed = refl

route-reply_iff_example :
    ((route (get_service_instances sd) round_robin_select services [] request 200 true).result
      ≡ reply (expected_response 200 game request, node))
    ↔ ((true ≡ true)
        × Answers
            (get_service_instances sd)
            round_robin_select
            services
            []
            request
            (expected_response 200 game request)
            200
            node)
route-reply_iff_example =
    route-reply_iff (get_service_instances sd) round_robin_select services [] request
      (expected_response 200 game request) 200 true node

route-in_memory_example :
    (name : Str) × (get_service_name services 3 ≡ some name) × IsTarget sd name node
route-in_memory_example =
    route-in_memory sd round_robin_select services [] request (expected_response 200 game request)
      200 true node sd-IsValid (inl refl) routed

broadcast-reply_iff_example :
    ((broadcast (get_service_instances sd) services request 3).1 ≡ reply (node ∷ [])) ↔ (
      (name : Str) × (xs : List ServiceInstance) × (get_service_name services 3 ≡ some name)
      × (get_service_instances sd name ≡ ok xs)
      × (xs ≢ [])
      × (node ∷ [] ≡ available xs))
broadcast-reply_iff_example =
    broadcast-reply_iff (get_service_instances sd) services request 3 (node ∷ [])
