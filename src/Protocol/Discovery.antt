-- ===== src/Protocol/Discovery.antt =====
-- pkg/protocol/router.go: `ServiceInstance` and `InMemoryServiceDiscovery`. The maps are
-- association lists; a callback is a number, and the calls that `notifyWatchers` starts are returned
-- as a list. Slices are values here: that `GetServiceInstances` hands out the stored slice itself,
-- which a later call writes to, is left out.
pub mod Laws
mod Tests
use mmo_server.Common.{
  or_empty, ℕ, ◌≡◌, List, [], ◌∷◌, ◌++◌, map, Option, none, some, ite, Str, Str_discrete, Dict,
  str_key, lookup, insert,
}

pub record ServiceInstance : Type 0 where
  pub id : Str
  pub service_name : Str
  pub address : Str
  pub weight : ℕ
  pub status : Str
  pub last_seen : ℕ
  pub metadata : Dict Str Str

abbrev pub up : Str
up = b'u' ∷ b'p' ∷ []

pub record Discovery : Type 0 where
  pub instances : Dict Str (List ServiceInstance)
  pub watches : Dict Str (List ℕ)

pub data RouterError : Type 0 where
  service_not_found no_available_instance routing_failed timeout : RouterError
  instance_not_found : Str → RouterError
  discovery_failed balancing_failed : RouterError → RouterError

pub data Result {ℓ} (A : Type ℓ) : Type ℓ where
  ok : A → Result A
  err : RouterError → Result A

infixl 5 ◌>>=◌
abbrev pub ◌>>=◌ {ℓ κ} : {A : Type ℓ} {B : Type κ} → Result A → (A → Result B) → Result B
ok a >>= f = f a
err e >>= f = err e

unfoldable pub new_discovery : Discovery
new_discovery = record { instances = []; watches = [] }

unfoldable pub get_service_instances : Discovery → Str → Result (List ServiceInstance)
get_service_instances sd name = elim (lookup name sd.instances) [
  | none ↦ err service_not_found
  | some xs ↦ ok xs
]

-- The calls of the watchers of a service, with its current instances.
pub notify_watchers : Discovery → Str → List (ℕ × List ServiceInstance)
notify_watchers sd name =
    map (λ w. (w, or_empty (lookup name sd.instances))) (or_empty (lookup name sd.watches))

-- The loop of `RegisterServiceInstance`: the first instance with the ID is replaced.
pub replace_instance : ServiceInstance → List ServiceInstance → Option (List ServiceInstance)
replace_instance instance' [] = none
replace_instance instance' (x ∷ xs) =
    ite (Str_discrete x.id instance'.id) (some (instance' ∷ xs))
      (elim (replace_instance instance' xs) [ none ↦ none | some ys ↦ some (x ∷ ys) ])

-- The list of a service once an instance is registered.
pub upsert : ServiceInstance → List ServiceInstance → List ServiceInstance
unfolding replace_instance
upsert instance' xs = elim (replace_instance instance' xs) [
  | none ↦ xs ++ (instance' ∷ [])
  | some ys ↦ ys
]

abbrev pub Notices : Type 0
Notices = List (ℕ × List ServiceInstance)

unfoldable pub register_service_instance : Discovery → ServiceInstance → Discovery × Notices
unfolding upsert notify_watchers
register_service_instance sd instance' =
    let name = instance'.service_name in
    let xs = upsert instance' (or_empty (lookup name sd.instances)) in
    let sd' = record sd { instances = insert name xs sd.instances } in
    (sd', notify_watchers sd' name)

-- `append(instances[:i], instances[i+1:]...)` at the first instance with the ID.
pub remove_instance : Str → List ServiceInstance → Option (List ServiceInstance)
remove_instance i [] = none
remove_instance i (x ∷ xs) =
    ite (Str_discrete x.id i) (some xs)
      (elim (remove_instance i xs) [ none ↦ none | some ys ↦ some (x ∷ ys) ])

-- The loop of `DeregisterServiceInstance` over the map: the first service that has the ID, and what
-- is left of its list.
pub find_service : Str → Dict Str (List ServiceInstance) → Option (Str × List ServiceInstance)
find_service i [] = none
find_service i ((name, xs) ∷ m) =
    let rest = find_service i m in
    elim (remove_instance i xs) [ none ↦ rest | some ys ↦ some (name, ys) ]

unfoldable pub deregister_service_instance : Discovery → Str → Result (Discovery × Notices)
unfolding remove_instance find_service notify_watchers
deregister_service_instance sd i = elim (find_service i sd.instances) [
  | none ↦ err (instance_not_found i)
  | some (name, ys) ↦
      let sd' = record sd { instances = insert name ys sd.instances } in
      ok (sd', notify_watchers sd' name)
]

unfoldable pub watch_service : Discovery → Str → ℕ → Discovery
watch_service sd name callback = record sd {
  watches = insert name (or_empty (lookup name sd.watches) ++ (callback ∷ [])) sd.watches;
}
