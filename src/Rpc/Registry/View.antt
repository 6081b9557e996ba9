-- ===== src/Rpc/Registry/View.antt =====
-- Views of the registry of pkg/rpc/load_balancer.go: the stored list of a service, and the instance
-- that an ID names in a list.
use mmo_server.Common.{
  or_empty, ◌≡◌, ◌≢◌, refl, List, [], ◌∷◌, Option, none, some, ite, if_pos, if_neg, Str,
  Str_discrete, str_key, lookup, arith, false,
}
use mmo_server.Rpc.Instance.{ServiceInstance, down, active}
use mmo_server.Rpc.Registry.{Registry, notify_watchers, upsert, mark_down, has_down}

abbrev pub stored : Registry → Str → List ServiceInstance
stored r name = or_empty (lookup name r.services)

unfoldable pub find : Str → List ServiceInstance → Option ServiceInstance
find i [] = none
find i (x ∷ xs) = ite (Str_discrete x.id i) (some x) (find i xs)

-- No ID twice.
abbrev pub Distinct : List ServiceInstance → Type 0
Distinct [] = Unit {0}
Distinct (x ∷ xs) = (find x.id xs ≡ none) × Distinct xs

pub services-notify :
    (r : Registry) (name : Str) (xs : List ServiceInstance)
    → (notify_watchers r name xs).services ≡ r.services
unfolding notify_watchers
services-notify r name xs = ground arith

-- An instance that is down is no answer.
unfoldable pub unless_down : Option ServiceInstance → Option ServiceInstance
unless_down none = none
unless_down (some x) = ite (Str_discrete x.status down) none (some x)

pub active-active : (xs : List ServiceInstance) → active (active xs) ≡ active xs
unfolding active
active-active [] = refl
active-active (x ∷ xs) = ground (arith, active-active xs)

pub active_same : (xs : List ServiceInstance) → has_down xs ≡ false → active xs ≡ xs
unfolding active has_down
active_same [] h = refl
active_same (x ∷ xs) h = ground (arith, active_same xs)

find-active-none :
    (i : Str) (xs : List ServiceInstance) → find i xs ≡ none → find i (active xs) ≡ none
unfolding find active
find-active-none i [] h = refl
find-active-none i (x ∷ xs) h = ground (arith, find-active-none i xs)

pub find-active :
    (i : Str) (xs : List ServiceInstance)
    → Distinct xs
    → find i (active xs) ≡ unless_down (find i xs)
unfolding find active unless_down
find-active i [] d = refl
find-active i (x ∷ xs) d = ground (arith, find-active i xs d.1, find-active-none i xs)

pub find-upsert :
    (i : Str) (x : ServiceInstance) (xs : List ServiceInstance)
    → find i (upsert x xs) ≡ ite (Str_discrete x.id i) (some x) (find i xs)
unfolding find upsert
find-upsert i x [] = refl
find-upsert i x (y ∷ xs) = ground (arith, find-upsert i x xs)

pub upsert-Distinct :
    (x : ServiceInstance) (xs : List ServiceInstance) → Distinct xs → Distinct (upsert x xs)
unfolding find upsert
upsert-Distinct x [] d = (refl, tt)
upsert-Distinct x (y ∷ xs) d = ground (arith, upsert-Distinct x xs d.1, find-upsert y.id x xs)

-- What marking an ID as down does to a list: nothing where the ID is unknown.
abbrev pub Marks : Str → List ServiceInstance → Option (List ServiceInstance) → Type 0
Marks i xs none = find i xs ≡ none
Marks i xs (some ys) =
    (x : ServiceInstance) × (find i xs ≡ some x)
    × Distinct ys
    × ((j : Str)
        → find j ys ≡ ite (Str_discrete i j) (some (record x { status = down })) (find j xs))

Marks-cons :
    (i : Str) (y : ServiceInstance) (xs : List ServiceInstance) (r : Option (List ServiceInstance))
    → Distinct (y ∷ xs)
    → y.id ≢ i
    → Marks i xs r
    → Marks i (y ∷ xs) (elim r [ none ↦ none | some ys ↦ some (y ∷ ys) ])
unfolding find
Marks-cons i y xs none d ne h = ground arith
Marks-cons i y xs (some ys) d ne (x, found, valid, marked) =
    (x, ground arith, ground (arith, marked y.id), λ j. ground (arith, marked j))

pub mark_down-Marks :
    (i : Str) (xs : List ServiceInstance) → Distinct xs → Marks i xs (mark_down i xs)
unfolding find mark_down
mark_down-Marks i [] d = refl
mark_down-Marks i (y ∷ xs) d = elim (Str_discrete y.id i) [
  | yes p ↦ rw (if_pos (Str_discrete y.id i) p) (y, ground arith, ground arith, λ j. ground arith)
  | no p ↦ rw (if_neg (Str_discrete y.id i) p) (Marks-cons i y xs _ d p (mark_down-Marks i xs d.1))
]
