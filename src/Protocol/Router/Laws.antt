-- ===== src/Protocol/Router/Laws.antt =====
-- `Route`, `RouteAsync` and `Broadcast` of pkg/protocol/router.go: when they succeed, to whom they
-- send, and what the response says.
use mmo_server.Common.{
  or_empty, ℕ, zero, suc, ◌≡◌, ◌≢◌, ◌↔◌, ◌⊎◌, inl, inr, refl, ap, ◌∙◌, Bool, true, false, List, [],
  ◌∷◌, some, if◌then◌else◌, get_elem?, Str, str_key, lookup, arith, Option-cases, subst,
}
use mmo_server.Protocol.Message.{Message}
use mmo_server.Protocol.Discovery.{
  ServiceInstance, Discovery, service_not_found, timeout, up, Result, ok, err,
  get_service_instances,
}
use mmo_server.Protocol.Discovery.Laws.{IsValid, IsService}
use mmo_server.Protocol.Balancer.{
  Selection, selected, failed, panic, Counters, available, round_robin_select, weighted_select,
}
use mmo_server.Protocol.Balancer.Sound.{select-IsUp}
use mmo_server.Protocol.Router.{
  ServiceMap, get_service_name, Reply, reply, refuse, response, fill_destination, route_to, route,
  with_instances, finish, targets, broadcast_to, broadcast, placeholder,
}

-- What a response is, in terms of the request.
abbrev pub expected_response : ℕ → Str → Message → Message
expected_response now name msg = record msg {
  timestamp = now;
  payload_length = 0;
  source_service = name;
  destination_service = msg.source_service;
  payload = placeholder;
}

module _ {B : Type 0} (get : Str → Result (List ServiceInstance))
    (select : B → List ServiceInstance → B × Selection) where
  -- How a call gets to an instance: the name of the service, its instances, the selection.
  abbrev pub Reaches : ServiceMap → B → Message → Str → ServiceInstance → Type 0
  Reaches services lb msg name x =
      (xs : List ServiceInstance) × (get_service_name services msg.service_type ≡ some name)
      × (get name ≡ ok xs)
      × ((select lb xs).1 ≡ selected x)

  finish-reply :
      {A : Type 0} (msg : Message) (k : ServiceInstance → Reply A) (s : B × Selection) (a : A)
      → (finish get select msg k s).result ≡ reply a
      → (x : ServiceInstance) × (s.1 ≡ selected x) × (k x ≡ reply a)
  unfolding finish
  finish-reply msg k (lb, selected x) a e = (x, refl, e)
  finish-reply msg k (lb, failed c) a e = absurd (cc)
  finish-reply msg k (lb, panic) a e = absurd (cc)

  with_instances-reply :
      {A : Type 0} (msg : Message) (lb : B) (k : ServiceInstance → Reply A)
      (r : Result (List ServiceInstance)) (a : A)
      → (with_instances get select msg lb k r).result ≡ reply a
      → (x : ServiceInstance) × (xs : List ServiceInstance) × (r ≡ ok xs)
        × ((select lb xs).1 ≡ selected x)
        × (k x ≡ reply a)
  unfolding with_instances
  with_instances-reply msg lb k (err c) a e = absurd (cc)
  with_instances-reply msg lb k (ok xs) a e =
      let (x, s, g) = finish-reply msg k (select lb xs) a e in (x, xs, refl, s, g)

  route_to-reply :
      {A : Type 0} (services : ServiceMap) (lb : B) (msg : Message)
      (k : Str → Message → ServiceInstance → Reply A) (a : A)
      → (route_to get select services lb msg k).result ≡ reply a
      → (name : Str) × (x : ServiceInstance) × Reaches services lb msg name x
        × (k name (fill_destination name msg) x ≡ reply a)
  unfolding route_to
  route_to-reply services lb msg k a e =
      elim (Option-cases (get_service_name services msg.service_type)) [
        | inl h ↦ absurd (not_reply (rw (h, route_to) at e))
        | inr (name, h) ↦
            let msg' = fill_destination name msg in
            let (x, xs, g, s, r) =
              with_instances-reply msg' lb (k name msg') (get name) a (rw (h, route_to) at e) in
            (name, x, (xs, h, g, s), r)
      ]
    where
      not_reply : refuse service_not_found ≡ reply a → ⊥
      not_reply h = cc

  route_to-Reaches :
      {A : Type 0} (services : ServiceMap) (lb : B) (msg : Message)
      (k : Str → Message → ServiceInstance → Reply A) (name : Str) (x : ServiceInstance)
      (r : Reaches services lb msg name x)
      → route_to get select services lb msg k ≡ record {
        message = fill_destination name msg;
        balancer = (select lb r.0).0;
        result = k name (fill_destination name msg) x;
      }
  unfolding route_to with_instances finish
  route_to-Reaches services lb msg k name x (xs, h, g, s) = rw (h, route_to, g, s)

  answer :
      (msg : Message) (name : Str) (now : ℕ)
      → response now name (fill_destination name msg) ≡ expected_response now name msg
  unfolding response fill_destination
  answer msg name now = ground arith

  k : ℕ → Bool → Str → Message → ServiceInstance → Reply (Message × ServiceInstance)
  k now b name msg y = if b then reply (response now name msg, y) else refuse timeout

  -- The instance is reached, and the message is the response to the request.
  abbrev pub Answers : ServiceMap → B → Message → Message → ℕ → ServiceInstance → Type 0
  Answers services lb msg m now x =
      (name : Str) × Reaches services lb msg name x × (m ≡ expected_response now name msg)

  reply-Answers :
      (services : ServiceMap) (lb : B) (msg m : Message) (now : ℕ) (x : ServiceInstance) (b : Bool)
      → (route_to get select services lb msg (k now b)).result ≡ reply (m, x)
      → (b ≡ true) × Answers services lb msg m now x
  unfolding k
  reply-Answers services lb msg m now x false e =
      let (name, y, r, q) = route_to-reply services lb msg (k now false) (m, x) e in absurd (cc)
  reply-Answers services lb msg m now x true e =
      let (name, y, r, q) = route_to-reply services lb msg (k now true) (m, x) e in
      let same : y ≡ x = cc in
      (
        refl,
        (name, subst (Reaches services lb msg name) same r, ground (arith, answer msg name now)),
      )

  Answers-reply :
      (services : ServiceMap) (lb : B) (msg m : Message) (now : ℕ) (x : ServiceInstance) (b : Bool)
      → (b ≡ true) × Answers services lb msg m now x
      → (route_to get select services lb msg (k now b)).result ≡ reply (m, x)
  unfolding k
  Answers-reply services lb msg m now x b (t, (name, r, e)) =
      ap (λ o. o.result) (route_to-Reaches services lb msg (k now b) name x r)
      ∙ rw (t, answer msg name now, e)

  -- `Route` returns a response from an instance exactly when it comes before the timeout, the
  -- message's service type has a name, that service's instances are found and the balancer selects
  -- the instance among them. The response has the request's version, flags, types, sequence number,
  -- correlation and session, goes from the service to the request's sender, and carries the
  -- placeholder with a payload length of 0.
  pub route-reply_iff :
      (services : ServiceMap) (lb : B) (msg m : Message) (now : ℕ) (in_time : Bool)
      (x : ServiceInstance)
      → ((route get select services lb msg now in_time).result ≡ reply (m, x))
        ↔ ((in_time ≡ true) × Answers services lb msg m now x)
  unfolding route k
  route-reply_iff services lb msg m now in_time x =
      (reply-Answers services lb msg m now x in_time, Answers-reply services lb msg m now x in_time)

IsService-name :
    (name : Str) (xs : List ServiceInstance) (j : ℕ) (x : ServiceInstance)
    → IsService name xs
    → get_elem? xs j ≡ some x
    → x.service_name ≡ name
IsService-name name [] j x v e = absurd (cc)
IsService-name name (y ∷ xs) zero x v e = ap (λ z. z.service_name) same ∙ v.0
  where
    same : x ≡ y
    same = cc
IsService-name name (y ∷ xs) (suc j) x v e = IsService-name name xs j x v.2 e

-- An instance that is up, of the service, and on the registry's list of it.
abbrev pub IsTarget : Discovery → Str → ServiceInstance → Type 0
IsTarget sd name x =
    (x.status ≡ up)
    × (x.service_name ≡ name)
    × (j : ℕ) × (get_elem? (or_empty (lookup name sd.instances)) j ≡ some x)

listed :
    (sd : Discovery) (name : Str) (xs : List ServiceInstance)
    → get_service_instances sd name ≡ ok xs
    → or_empty (lookup name sd.instances) ≡ xs
unfolding get_service_instances
listed sd name xs e = ground arith

Reaches-IsTarget :
    (sd : Discovery) (select : Counters → List ServiceInstance → Counters × Selection)
    (services : ServiceMap) (counters : Counters) (msg : Message) (name : Str) (x : ServiceInstance)
    → IsValid sd
    → (select ≡ round_robin_select) ⊎ (select ≡ weighted_select)
    → Reaches (get_service_instances sd) select services counters msg name x
    → IsTarget sd name x
Reaches-IsTarget sd select services counters msg name x v which (xs, _, g, s) =
    let same = listed sd name xs g in
    let (is_up, j, there) = select-IsUp counters xs x (chosen which) in
    let at_place = ap (λ l. get_elem? l j) same ∙ there in
    (
      is_up,
      IsService-name name (or_empty (lookup name sd.instances)) j x (v.listed name) at_place,
      j,
      at_place,
    )
  where
    chosen :
        (select ≡ round_robin_select) ⊎ (select ≡ weighted_select)
        → ((round_robin_select counters xs).1 ≡ selected x)
          ⊎ ((weighted_select counters xs).1 ≡ selected x)
    chosen (inl e) = inl (subst (λ f. (f counters xs).1 ≡ selected x) e s)
    chosen (inr e) = inr (subst (λ f. (f counters xs).1 ≡ selected x) e s)

-- With a valid in-memory registry and either balancer, an instance that `Route` gets a response from
-- is up, and it is registered and listed under the service name of the message's type.
pub route-in_memory :
    (sd : Discovery) (select : Counters → List ServiceInstance → Counters × Selection)
    (services : ServiceMap) (counters : Counters) (msg m : Message) (now : ℕ) (in_time : Bool)
    (x : ServiceInstance)
    → IsValid sd
    → (select ≡ round_robin_select) ⊎ (select ≡ weighted_select)
    → (route (get_service_instances sd) select services counters msg now in_time).result
      ≡ reply (m, x)
    → (name : Str) × (get_service_name services msg.service_type ≡ some name) × IsTarget sd name x
route-in_memory sd select services counters msg m now in_time x v which e =
    let (t, (name, r, same)) =
      (route-reply_iff (get_service_instances sd) select services counters msg m now in_time x).0
        e in
    (name, r.1, Reaches-IsTarget sd select services counters msg name x v which r)

targets-available : (xs : List ServiceInstance) → targets xs ≡ available xs
unfolding targets available
targets-available [] = refl
targets-available (x ∷ xs) = rw (targets-available xs)

broadcast_to_iff :
    (xs sent : List ServiceInstance)
    → (broadcast_to xs ≡ reply sent) ↔ ((xs ≢ []) × (sent ≡ available xs))
unfolding broadcast_to
broadcast_to_iff [] sent = (λ e. absurd (cc), λ h. absurd (h.0 refl))
broadcast_to_iff (x ∷ xs) sent =
    let same = targets-available (x ∷ xs) in ((λ e. (λ n. cc, cc)), λ h. cc)

-- `Broadcast` succeeds exactly when the service type has a name and the service's instances are
-- found, at least one. It then sends to those that the balancers choose from, the instances that are
-- up, of which there may be none.
pub broadcast-reply_iff :
    (get : Str → Result (List ServiceInstance)) (services : ServiceMap) (msg : Message)
    (service_type : ℕ) (sent : List ServiceInstance)
    → ((broadcast get services msg service_type).1 ≡ reply sent) ↔ (
        (name : Str) × (xs : List ServiceInstance) × (get_service_name services service_type
          ≡ some name)
        × (get name ≡ ok xs)
        × (xs ≢ [])
        × (sent ≡ available xs))
unfolding broadcast
broadcast-reply_iff get services msg service_type sent = (there, back)
  where
    known :
        (name : Str) (r : Result (List ServiceInstance))
        → get_service_name services service_type ≡ some name
        → get name ≡ r
        → (broadcast get services msg service_type).1 ≡ reply sent
        → (name : Str) × (xs : List ServiceInstance) × (get_service_name services service_type
            ≡ some name)
          × (get name ≡ ok xs)
          × (xs ≢ [])
          × (sent ≡ available xs)
    known name (err c) h g e = absurd (ground arith)
    known name (ok xs) h g e =
        let (some_there, same) = (broadcast_to_iff xs sent).0 (ground arith) in
        (name, xs, h, g, some_there, same)

    there :
        (broadcast get services msg service_type).1 ≡ reply sent
        → (name : Str) × (xs : List ServiceInstance) × (get_service_name services service_type
            ≡ some name)
          × (get name ≡ ok xs)
          × (xs ≢ [])
          × (sent ≡ available xs)
    there e = elim (Option-cases (get_service_name services service_type)) [
      | inl h ↦ absurd (ground arith)
      | inr (name, h) ↦ known name (get name) h refl e
    ]

    back :
        ((name : Str) × (xs : List ServiceInstance) × (get_service_name services service_type
            ≡ some name)
          × (get name ≡ ok xs)
          × (xs ≢ [])
          × (sent ≡ available xs))
        → (broadcast get services msg service_type).1 ≡ reply sent
    back (name, xs, h, g, some_there, same) =
        rw (h, broadcast, g, broadcast) ((broadcast_to_iff xs sent).1 (some_there, same))
