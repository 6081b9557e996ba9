-- ===== src/Protocol/Discovery/Laws.antt =====
-- `RegisterServiceInstance`, `DeregisterServiceInstance` and `GetServiceInstances` of
-- pkg/protocol/router.go against a view of the registry: which instance an ID names in a service.
use mmo_server.Common.{
  or_empty, ◌≡◌, ◌≢◌, refl, subst, ◌∙◌, List, [], ◌∷◌, map, Option, none, some, ite, if_pos, if_neg,
  Str, Str_discrete, Dict, str_key, lookup, insert, lookup-insert, lookup-insert_self, insert-IsMap,
  IsMap, arith,
}
use mmo_server.Protocol.Discovery.{
  ServiceInstance, Discovery, instance_not_found, Result, ok, err, get_service_instances,
  replace_instance, upsert, register_service_instance, remove_instance, find_service, Notices,
  deregister_service_instance,
}

unfoldable pub find : Str → List ServiceInstance → Option ServiceInstance
find i [] = none
find i (x ∷ xs) = ite (Str_discrete x.id i) (some x) (find i xs)

-- No ID twice in a list, and each instance under its own service.
abbrev pub IsService : Str → List ServiceInstance → Type 0
IsService name [] = Unit {0}
IsService name (x ∷ xs) = (x.service_name ≡ name) × (find x.id xs ≡ none) × IsService name xs

upsert-cons :
    (x y : ServiceInstance) (xs : List ServiceInstance)
    → upsert x (y ∷ xs) ≡ ite (Str_discrete y.id x.id) (x ∷ xs) (y ∷ upsert x xs)
unfolding upsert replace_instance
upsert-cons x y xs = ground arith

-- A registered instance is found under its ID, and the other IDs name what they did.
pub find-upsert :
    (j : Str) (x : ServiceInstance) (xs : List ServiceInstance)
    → find j (upsert x xs) ≡ ite (Str_discrete x.id j) (some x) (find j xs)
unfolding find
find-upsert j x [] = unfold upsert replace_instance in refl
find-upsert j x (y ∷ xs) = ground (arith, upsert-cons x y xs, find-upsert j x xs)

upsert-IsService :
    (name : Str) (x : ServiceInstance) (xs : List ServiceInstance)
    → x.service_name ≡ name
    → IsService name xs
    → IsService name (upsert x xs)
unfolding find
upsert-IsService name x [] n h = unfold upsert replace_instance in (n, refl, tt)
upsert-IsService name x (y ∷ xs) n h =
    ground (arith, upsert-cons x y xs, upsert-IsService name x xs n h.2, find-upsert y.id x xs)

-- Taking out an ID: nothing is found where the ID was unknown, and else the ID is gone and the
-- other IDs name what they did.
abbrev Removes : Str → Str → List ServiceInstance → Option (List ServiceInstance) → Type 0
Removes name i xs none = find i xs ≡ none
Removes name i xs (some ys) =
    ((x : ServiceInstance) × (find i xs ≡ some x))
    × IsService name ys
    × ((j : Str) → find j ys ≡ ite (Str_discrete i j) none (find j xs))

Removes-cons :
    (name i : Str) (y : ServiceInstance) (xs : List ServiceInstance)
    (r : Option (List ServiceInstance))
    → IsService name (y ∷ xs)
    → y.id ≢ i
    → Removes name i xs r
    → Removes name i (y ∷ xs) (elim r [ none ↦ none | some ys ↦ some (y ∷ ys) ])
unfolding find
Removes-cons name i y xs none h ne r = ground arith
Removes-cons name i y xs (some ys) h ne (found, valid, gone) =
    ((found.0, ground arith), ground (arith, gone y.id), λ j. ground (arith, gone j))

remove-Removes :
    (name i : Str) (xs : List ServiceInstance)
    → IsService name xs
    → Removes name i xs (remove_instance i xs)
unfolding find remove_instance
remove-Removes name i [] h = refl
remove-Removes name i (y ∷ xs) h = elim (Str_discrete y.id i) [
  | yes p ↦ rw (if_pos _ p) ((y, ground arith), h.2, λ j. ground (arith, h.1))
  | no p ↦ rw (if_neg _ p) (Removes-cons name i y xs _ h p (remove-Removes name i xs h.2))
]

-- No service twice, no ID twice in a service, and each instance under its own service.
pub record IsValid (sd : Discovery) : Type 0 where
  pub services : IsMap sd.instances
  pub listed : (name : Str) → IsService name (or_empty (lookup name sd.instances))

-- The instance that an ID names in a service.
abbrev pub find_in : Discovery → Str → Str → Option ServiceInstance
find_in sd name i = find i (or_empty (lookup name sd.instances))

-- Storing a list for a service keeps the registry valid if the list is one of that service.
insert-IsValid :
    (sd : Discovery) (name : Str) (xs : List ServiceInstance)
    → IsValid sd
    → IsService name xs
    → IsValid (record sd { instances = insert name xs sd.instances })
insert-IsValid sd name xs v h = record {
  services = insert-IsMap name xs sd.instances v.services;
  listed = λ j. rw (lookup-insert name j xs sd.instances) (elim (Str_discrete name j) [
    | yes p ↦ rw (if_pos _ p) (subst (λ n. IsService n xs) p h)
    | no p ↦ rw (if_neg _ p) (v.listed j)
  ]);
}

find_in-insert :
    (sd : Discovery) (name j i : Str) (xs : List ServiceInstance)
    → find_in (record sd { instances = insert name xs sd.instances }) j i
      ≡ ite (Str_discrete name j) (find i xs) (find_in sd j i)
find_in-insert sd name j i xs = ground (arith, lookup-insert name j xs sd.instances)

-- `RegisterServiceInstance` keeps the registry valid: no service and no ID twice, and each instance
-- under its own service.
pub register-IsValid :
    (sd : Discovery) (x : ServiceInstance) → IsValid sd → IsValid (register_service_instance sd x).0
unfolding register_service_instance
register-IsValid sd x v =
    insert-IsValid sd x.service_name _ v
      (upsert-IsService x.service_name x _ refl (v.listed x.service_name))

-- After `RegisterServiceInstance` the ID of the instance names it in its service; all else names
-- what it did. Each watcher of the service is called once, in order, with the list that
-- `GetServiceInstances` returns from then on.
pub register-find :
    (sd : Discovery) (x : ServiceInstance) (name i : Str)
    → (find_in (register_service_instance sd x).0 name i
        ≡ ite
            (Str_discrete x.service_name name)
            (ite (Str_discrete x.id i) (some x) (find_in sd name i))
            (find_in sd name i))
      × ((xs : List ServiceInstance) × (get_service_instances
              (register_service_instance sd x).0
              x.service_name
            ≡ ok xs)
          × ((register_service_instance sd x).1
              ≡ map (λ w. (w, xs)) (or_empty (lookup x.service_name sd.watches))))
unfolding register_service_instance get_service_instances
register-find sd x name i =
    let xs = upsert x (or_empty (lookup x.service_name sd.instances)) in
    let stored = lookup-insert_self x.service_name xs sd.instances in
    (
      find_in-insert sd x.service_name name i xs
          ∙ ground (arith, find-upsert i x (or_empty (lookup x.service_name sd.instances))),
      (xs, rw (stored, get_service_instances), rw stored),
    )

-- What the search over the services comes to: the ID is in none, or it is in the one that is named,
-- and has been taken out of its list.
abbrev Finds : Str → Dict Str (List ServiceInstance) → Option (Str × List ServiceInstance) → Type 0
Finds i m none = (name : Str) → find i (or_empty (lookup name m)) ≡ none
Finds i m (some (name, ys)) = Removes name i (or_empty (lookup name m)) (some ys)

abbrev Listed : Dict Str (List ServiceInstance) → Type 0
Listed [] = Unit {0}
Listed ((name, xs) ∷ m) = IsService name xs × Listed m

Finds-cons :
    (i name : Str) (xs : List ServiceInstance) (m : Dict Str (List ServiceInstance))
    (r : Option (List ServiceInstance)) (q : Option (Str × List ServiceInstance))
    → lookup name m ≡ none
    → Removes name i xs r
    → Finds i m q
    → Finds i ((name, xs) ∷ m) (elim r [ none ↦ q | some ys ↦ some (name, ys) ])
unfolding lookup find
Finds-cons i name xs m (some ys) q e r f = rw (if_pos (Str_discrete name name) refl) r
Finds-cons i name xs m none none e r f = λ j. ground (arith, f j)
Finds-cons i name xs m none (some (n, ys)) e r f = elim (Str_discrete name n) [
  | yes p ↦ absurd (ground (arith, f.0))
  | no p ↦ rw (if_neg _ p) f
]

find_service-Finds :
    (i : Str) (m : Dict Str (List ServiceInstance))
    → IsMap m
    → Listed m
    → Finds i m (find_service i m)
unfolding find_service
find_service-Finds i [] v l = λ name. unfold lookup find in refl
find_service-Finds i ((name, xs) ∷ m) v l =
    Finds-cons i name xs m _ _ v.0 (remove-Removes name i xs l.0) (find_service-Finds i m v.1 l.1)

Listed_lem :
    (m : Dict Str (List ServiceInstance))
    → IsMap m
    → ((name : Str) → IsService name (or_empty (lookup name m)))
    → Listed m
unfolding lookup
Listed_lem [] v l = tt
Listed_lem ((name, xs) ∷ m) v l = (
  rw (if_pos (Str_discrete name name) refl) at (l name),
  Listed_lem m v.1 λ j. elim (Str_discrete name j) [
    | yes p ↦ subst (λ n. IsService n (or_empty (lookup n m))) p (rw v.0 tt)
    | no p ↦ rw (if_neg _ p) at (l j)
  ],
)

-- What may be said of the outcome of taking out an ID: see `deregister-find`.
abbrev pub Deregisters : Discovery → Str → Result (Discovery × Notices) → Type 0
Deregisters sd i (err e) = (e ≡ instance_not_found i) × ((name : Str) → find_in sd name i ≡ none)
Deregisters sd i (ok (sd', notices)) =
    (name : Str) × (ys : List ServiceInstance) × (x : ServiceInstance) × (notices
      ≡ map (λ w. (w, ys)) (or_empty (lookup name sd.watches)))
    × (lookup name sd'.instances ≡ some ys)
    × (find_in sd name i ≡ some x)
    × IsValid sd'
    × ((j k : Str)
        → find_in sd' j k
          ≡ ite (Str_discrete name j) (ite (Str_discrete i k) none (find_in sd name k))
              (find_in sd j k))

after_search :
    (sd : Discovery) (i : Str) (r : Option (Str × List ServiceInstance))
    → IsValid sd
    → find_service i sd.instances ≡ r
    → Finds i sd.instances r
    → Deregisters sd i (deregister_service_instance sd i)
unfolding deregister_service_instance
after_search sd i none v e f = rw (e, deregister_service_instance) (refl, f)
after_search sd i (some (name, ys)) v e (found, valid, gone) =
    rw (e, deregister_service_instance)
      (
        name,
        ys,
        found.0,
        rw (lookup-insert_self name ys sd.instances),
        lookup-insert_self name ys sd.instances,
        found.1,
        insert-IsValid sd name ys v valid,
        λ j k. find_in-insert sd name j k ys ∙ ground (arith, gone k),
      )

-- On a valid registry `DeregisterServiceInstance` fails exactly where the ID names no instance in
-- any service. Else there is a service in which it named one: the registry stays valid, the ID names
-- nothing in that service any more, all else names what it did, and each watcher of that service is
-- called with its new list.
pub deregister-find :
    (sd : Discovery) (i : Str) → IsValid sd → Deregisters sd i (deregister_service_instance sd i)
deregister-find sd i v =
    after_search sd i (find_service i sd.instances) v refl
      (find_service-Finds i sd.instances v.services (Listed_lem _ v.services v.listed))
