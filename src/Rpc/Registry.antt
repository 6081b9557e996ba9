-- ===== src/Rpc/Registry.antt =====
-- pkg/rpc/load_balancer.go: `InMemoryRegistry`. An instance is a value of the registry, where the
-- source stores a pointer. A watcher is a channel of capacity 1 with what waits in it; `cleanup` is
-- one tick of the loop, over the services in the order of the association list.
pub mod View
pub mod Laws
mod Tests
use mathlib.Core.List.{foldl}
use mmo_server.Common.{
  or_empty, ℕ, Bool, true, false, List, [], ◌∷◌, ◌++◌, map, Option, none, some, ite, if◌then◌else◌,
  Str, Str_discrete, ℕ_discrete, Dict, str_key, lookup, insert, erase,
}
use mmo_server.Rpc.Instance.{ServiceInstance, down, active}

pub record Watcher : Type 0 where
  pub id : ℕ
  pub pending : Option (List ServiceInstance)

pub record Registry : Type 0 where
  pub services : Dict Str (List ServiceInstance)
  pub watches : Dict Str (List Watcher)

unfoldable pub new_registry : Registry
new_registry = record { services = []; watches = [] }

-- The `select` with a default: a full channel drops the list.
unfoldable pub deliver : List ServiceInstance → Watcher → Watcher
deliver xs w = elim w.pending [ none ↦ record w { pending = some xs } | some old ↦ w ]

unfoldable pub notify_watchers : Registry → Str → List ServiceInstance → Registry
unfolding deliver
notify_watchers r name xs = elim (lookup name r.watches) [
  | none ↦ r
  | some ws ↦ record r { watches = insert name (map (deliver xs) ws) r.watches }
]

-- The loop of `Register`: the first instance with the ID is replaced, or the new one appended.
unfoldable pub upsert : ServiceInstance → List ServiceInstance → List ServiceInstance
upsert x [] = x ∷ []
upsert x (y ∷ ys) = ite (Str_discrete y.id x.id) (x ∷ ys) (y ∷ upsert x ys)

unfoldable pub register : Registry → ServiceInstance → Registry
unfolding upsert notify_watchers
register r x =
    let xs = upsert x (or_empty (lookup x.name r.services)) in
    notify_watchers (record r { services = insert x.name xs r.services }) x.name xs

-- The inner loop of `Deregister`: the first instance with the ID becomes "down".
unfoldable pub mark_down : Str → List ServiceInstance → Option (List ServiceInstance)
mark_down i [] = none
mark_down i (x ∷ xs) =
    ite (Str_discrete x.id i) (some (record x { status = down } ∷ xs))
      (elim (mark_down i xs) [ none ↦ none | some ys ↦ some (x ∷ ys) ])

unfoldable pub find_service :
    Str → Dict Str (List ServiceInstance) → Option (Str × List ServiceInstance)
unfolding mark_down
find_service i [] = none
find_service i ((name, xs) ∷ m) =
    let rest = find_service i m in elim (mark_down i xs) [ none ↦ rest | some ys ↦ some (name, ys) ]

-- `none` is the error that the instance is not found.
unfoldable pub deregister : Registry → Str → Option Registry
unfolding find_service notify_watchers
deregister r i = elim (find_service i r.services) [
  | none ↦ none
  | some (name, ys) ↦
      some (notify_watchers (record r { services = insert name ys r.services }) name ys)
]

-- `GetInstances`, which never fails.
unfoldable pub get_instances : Registry → Str → List ServiceInstance
get_instances r name = active (or_empty (lookup name r.services))

unfoldable pub has_down : List ServiceInstance → Bool
has_down [] = false
has_down (x ∷ xs) = ite (Str_discrete x.status down) true (has_down xs)

unfoldable pub clean_service : Registry → Str × List ServiceInstance → Registry
unfolding active notify_watchers has_down
clean_service r (name, xs) =
    if has_down xs
    then notify_watchers (record r { services = insert name (active xs) r.services }) name
        (active xs)
    else r

unfoldable pub cleanup : Registry → Registry
unfolding clean_service
cleanup r = foldl clean_service r r.services

-- `WatchService`: the new channel holds the active instances.
unfoldable pub watch_service : Registry → Str → ℕ → Registry
unfolding get_instances
watch_service r name i =
    let w : Watcher = record { id = i; pending = some (get_instances r name) } in
    record r { watches = insert name (or_empty (lookup name r.watches) ++ (w ∷ [])) r.watches }

unfoldable pub remove_watcher : ℕ → List Watcher → List Watcher
remove_watcher i [] = []
remove_watcher i (w ∷ ws) = ite (ℕ_discrete w.id i) ws (w ∷ remove_watcher i ws)

abbrev store_watchers : Registry → Str → List Watcher → Registry
store_watchers r name [] = record r { watches = erase name r.watches }
store_watchers r name (w ∷ ws) = record r { watches = insert name (w ∷ ws) r.watches }

-- The goroutine of `WatchService` once its context is done.
unfoldable pub cancel_watch : Registry → Str → ℕ → Registry
unfolding remove_watcher
cancel_watch r name i = elim (lookup name r.watches) [
  | none ↦ r
  | some ws ↦ store_watchers r name (remove_watcher i ws)
]
