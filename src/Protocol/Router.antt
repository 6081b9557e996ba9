-- ===== src/Protocol/Router.antt =====
-- pkg/protocol/router.go: `MessageRouter`. The service discovery and the load balancer are the
-- section's parameters, as the router holds them behind interfaces. A call returns the message as it
-- leaves it, since it gets a pointer; a response that comes before the timeout is `in_time`.
pub mod Laws
mod Tests
use mmo_server.Common.{
  ℕ, Bool, true, false, List, [], ◌∷◌, Option, none, some, ite, if◌then◌else◌, Str, Str_discrete,
  ℕ_discrete, Dict, nat_key, lookup, insert,
}
use mmo_server.Protocol.Message.{Message}
use mmo_server.Protocol.Discovery.{
  ServiceInstance, RouterError, service_not_found, no_available_instance, timeout, discovery_failed,
  balancing_failed, up, Result, ok, err,
}
use mmo_server.Protocol.Balancer.{Selection, selected, failed, panic}

abbrev pub ServiceMap : Type 0
ServiceMap = Dict ℕ Str

-- `RegisterServiceType` and `GetServiceName`.
unfoldable pub register_service_type : ServiceMap → ℕ → Str → ServiceMap
register_service_type services service_type name = insert service_type name services

unfoldable pub get_service_name : ServiceMap → ℕ → Option Str
get_service_name services service_type = lookup service_type services

pub data Reply (A : Type 0) : Type 0 where
  reply : A → Reply A
  refuse : RouterError → Reply A
  crash : Reply A

-- "Response placeholder"
abbrev pub placeholder : Str
placeholder =
    b'R' ∷ b'e' ∷ b's' ∷ b'p' ∷ b'o' ∷ b'n' ∷ b's' ∷ b'e' ∷ b' ' ∷ b'p' ∷ b'l' ∷ b'a' ∷ b'c' ∷ b'e'
    ∷ b'h' ∷ b'o' ∷ b'l' ∷ b'd' ∷ b'e' ∷ b'r' ∷ []

unfoldable pub response : ℕ → Str → Message → Message
response now service_name msg = record msg {
  timestamp = now;
  payload_length = 0;
  source_service = service_name;
  destination_service = msg.source_service;
  payload = placeholder;
}

-- `if msg.DestinationService == ""`
unfoldable pub fill_destination : Str → Message → Message
fill_destination name msg =
    ite (Str_discrete msg.destination_service []) (record msg { destination_service = name }) msg

-- The message, the balancer's state, and what the call returns.
pub record Routed (B A : Type 0) : Type 0 where
  pub message : Message
  pub balancer : B
  pub result : Reply A

module _ {B : Type 0} (get : Str → Result (List ServiceInstance))
    (select : B → List ServiceInstance → B × Selection) where
  finish : {A : Type 0} → Message → (ServiceInstance → Reply A) → B × Selection → Routed B A
  finish msg k (lb, selected x) = record { message = msg; balancer = lb; result = k x }
  finish msg k (lb, failed e) = record {
    message = msg;
    balancer = lb;
    result = refuse (balancing_failed e);
  }
  finish msg k (lb, panic) = record { message = msg; balancer = lb; result = crash }

  with_instances :
      {A : Type 0}
      → Message
      → B
      → (ServiceInstance → Reply A)
      → Result (List ServiceInstance)
      → Routed B A
  unfolding finish
  with_instances msg lb k (err e) = record {
    message = msg;
    balancer = lb;
    result = refuse (discovery_failed e);
  }
  with_instances msg lb k (ok xs) = finish msg k (select lb xs)

  -- The common front of `Route` and `RouteAsync`: name, destination, instances, selection.
  route_to :
      {A : Type 0}
      → ServiceMap
      → B
      → Message
      → (Str → Message → ServiceInstance → Reply A)
      → Routed B A
  unfolding with_instances get_service_name fill_destination
  route_to services lb msg k = elim (get_service_name services msg.service_type) [
    | none ↦ record { message = msg; balancer = lb; result = refuse service_not_found }
    | some name ↦
        let msg' = fill_destination name msg in with_instances msg' lb (k name msg') (get name)
  ]

  -- `Route`: the response and the instance that it came from.
  unfoldable pub route : ServiceMap → B → Message → ℕ → Bool → Routed B (Message × ServiceInstance)
  unfolding route_to
  route services lb msg now in_time =
      route_to services lb msg
        λ name msg' x. if in_time then reply (response now name msg', x) else refuse timeout

  -- `RouteAsync`: the instance that the message is sent to.
  unfoldable pub route_async : ServiceMap → B → Message → Routed B ServiceInstance
  unfolding route_to
  route_async services lb msg = route_to services lb msg λ name msg' x. reply x

-- The instances that a broadcast is sent to.
pub targets : List ServiceInstance → List ServiceInstance
targets [] = []
targets (x ∷ xs) = ite (Str_discrete x.status up) (x ∷ targets xs) (targets xs)

broadcast_to : List ServiceInstance → Reply (List ServiceInstance)
broadcast_to [] = refuse no_available_instance
broadcast_to (x ∷ xs) = reply (targets (x ∷ xs))

-- `Broadcast`: the message as it is left, and the instances that it goes to.
unfoldable pub broadcast :
    (Str → Result (List ServiceInstance))
    → ServiceMap
    → Message
    → ℕ
    → Message × Reply (List ServiceInstance)
unfolding targets broadcast_to
broadcast get services msg service_type = elim (get_service_name services service_type) [
  | none ↦ (msg, refuse service_not_found)
  | some name ↦
      let msg' = record msg { destination_service = name; service_type = service_type } in
      elim (get name) [
        | err e ↦ (msg', refuse (discovery_failed e))
        | ok xs ↦ (msg', broadcast_to xs)
      ]
]
