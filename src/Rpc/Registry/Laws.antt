-- ===== src/Rpc/Registry/Laws.antt =====
-- `Register`, `Deregister`, `GetInstances` and `cleanup` of pkg/rpc/load_balancer.go, and what the
-- watchers get.
use mathlib.Core.List.{foldl}
use mmo_server.Common.{
  or_empty, inl, inr, ◌≡◌, refl, sym, ap, subst, ◌∙◌, List, [], ◌∷◌, Option, none, some, ite,
  if_pos, if_neg, Str, Str_discrete, Dict, str_key, lookup, insert, IsMap, lookup-insert,
  insert-IsMap, arith, Bool-cases, if◌then◌else◌,
}
use mmo_server.Rpc.Instance.{ServiceInstance, down, active}
use mmo_server.Rpc.Registry.{
  Registry, notify_watchers, upsert, register, find_service, deregister, get_instances, has_down,
  clean_service, cleanup,
}
use mmo_server.Rpc.Registry.View.{
  stored, find, Distinct, services-notify, unless_down, active-active, active_same, find-active,
  find-upsert, upsert-Distinct, Marks, mark_down-Marks,
}

stored-insert :
    (r : Registry) (name j : Str) (xs ys : List ServiceInstance)
    → stored (notify_watchers (record r { services = insert name xs r.services }) name ys) j
      ≡ ite (Str_discrete name j) xs (stored r j)
stored-insert r name j xs ys =
    ap (λ m. or_empty (lookup j m))
      (services-notify (record r { services = insert name xs r.services }) name ys)
    ∙ ground (arith, lookup-insert name j xs r.services)

clean_service-stored :
    (r : Registry) (name j : Str) (xs : List ServiceInstance)
    → stored (clean_service r (name, xs)) j
      ≡ (if has_down xs then ite (Str_discrete name j) (active xs) (stored r j) else stored r j)
unfolding clean_service
clean_service-stored r name j xs = elim (Bool-cases (has_down xs)) [
  | inl h ↦ rw h (stored-insert r name j (active xs) (active xs))
  | inr h ↦ rw h
]

cleaned : Option (List ServiceInstance) → List ServiceInstance → List ServiceInstance
cleaned none old = old
cleaned (some xs) old = active xs

foldl-stored :
    (es : Dict Str (List ServiceInstance)) (r : Registry) (j : Str)
    → IsMap es
    → ((xs : List ServiceInstance) → lookup j es ≡ some xs → stored r j ≡ xs)
    → stored (foldl clean_service r es) j ≡ cleaned (lookup j es) (stored r j)
unfolding cleaned lookup
foldl-stored [] r j d h = refl
foldl-stored ((name, xs) ∷ es) r j d h = elim (Str_discrete name j) [
  | yes p ↦
      let gone : lookup j es ≡ none = subst (λ k. lookup k es ≡ none) p d.0 in
      let before : stored r j ≡ xs = h xs (if_pos (Str_discrete name j) p _ _) in
      rw (if_pos (Str_discrete name j) p) (
        foldl-stored es (clean_service r (name, xs)) j d.1 (λ ys e. absurd (cc))
        ∙ ap (λ o. cleaned o (stored (clean_service r (name, xs)) j)) gone
        ∙ ground (arith, clean_service-stored r name j xs, active_same xs))
  | no p ↦
      let same : stored (clean_service r (name, xs)) j ≡ stored r j =
        ground (arith, clean_service-stored r name j xs) in
      rw (if_neg (Str_discrete name j) p) (
        foldl-stored es (clean_service r (name, xs)) j d.1
          (λ ys e. same ∙ h ys (if_neg (Str_discrete name j) p _ _ ∙ e))
        ∙ ap (cleaned (lookup j es)) same)
]

-- `cleanup` leaves of every service its instances that are not down, and so changes what
-- `GetInstances` returns for none.
pub cleanup-active :
    (r : Registry) (name : Str)
    → IsMap r.services
    → (stored (cleanup r) name ≡ active (stored r name))
      × (get_instances (cleanup r) name ≡ get_instances r name)
unfolding cleanup get_instances
cleanup-active r name d =
    let left = foldl-stored r.services r name d (λ xs e. ap or_empty e) in
    let all : stored (cleanup r) name ≡ active (stored r name) =
      left ∙ cleaned-or_empty (lookup name r.services) in
    (all, ap active all ∙ active-active (stored r name))
  where
    cleaned-or_empty :
        (o : Option (List ServiceInstance)) → cleaned o (or_empty o) ≡ active (or_empty o)
    cleaned-or_empty none = unfold cleaned active in refl
    cleaned-or_empty (some xs) = unfold cleaned in refl

-- No service twice, and no ID twice in a service.
pub record IsValid (r : Registry) : Type 0 where
  pub services_map : IsMap r.services
  pub distinct : (name : Str) → Distinct (stored r name)

insert-IsValid :
    (r : Registry) (name : Str) (xs ys : List ServiceInstance)
    → IsValid r
    → Distinct xs
    → IsValid (notify_watchers (record r { services = insert name xs r.services }) name ys)
insert-IsValid r name xs ys v d = record {
  services_map =
      subst (IsMap)
        (sym (services-notify (record r { services = insert name xs r.services }) name ys))
        (insert-IsMap name xs r.services v.services_map);
  distinct = λ j. rw (stored-insert r name j xs ys) (elim (Str_discrete name j) [
    | yes p ↦ rw (if_pos (Str_discrete name j) p) d
    | no p ↦ rw (if_neg (Str_discrete name j) p) (v.distinct j)
  ]);
}

find-active-upsert :
    (i : Str) (x : ServiceInstance) (xs : List ServiceInstance)
    → Distinct xs
    → find i (active (upsert x xs))
      ≡ ite
          (Str_discrete x.id i)
          (ite (Str_discrete x.status down) none (some x))
          (find i (active xs))
unfolding unless_down
find-active-upsert i x xs d = ground (
  arith,
  find-active i (upsert x xs) (upsert-Distinct x xs d),
  find-upsert i x xs,
  find-active i xs d,
)

-- On a valid registry `Register` keeps it valid, and then `GetInstances` lists the instance under
-- its service and ID unless it is down; what it lists under any other ID or service is unchanged.
pub register-get_instances :
    (r : Registry) (x : ServiceInstance) (name i : Str)
    → IsValid r
    → IsValid (register r x)
      × (find i (get_instances (register r x) name)
          ≡ ite
              (Str_discrete x.name name)
              (ite
                (Str_discrete x.id i)
                (ite (Str_discrete x.status down) none (some x))
                (find i (get_instances r name)))
              (find i (get_instances r name)))
unfolding register get_instances
register-get_instances r x name i v = (
  insert-IsValid r x.name xs xs v fine,
  ap (λ l. find i (active l)) (stored-insert r x.name name xs xs)
      ∙ ground (arith, find-active-upsert i x (stored r x.name) (v.distinct x.name)),
)
  where
    xs : List ServiceInstance
    xs = upsert x (stored r x.name)

    fine : Distinct xs
    fine = upsert-Distinct x (stored r x.name) (v.distinct x.name)

-- What the search of `Deregister` comes to.
abbrev Finds : Str → Dict Str (List ServiceInstance) → Option (Str × List ServiceInstance) → Type 0
Finds i m none = (name : Str) → find i (or_empty (lookup name m)) ≡ none
Finds i m (some (name, ys)) = Marks i (or_empty (lookup name m)) (some ys)

abbrev Listed : Dict Str (List ServiceInstance) → Type 0
Listed [] = Unit {0}
Listed ((name, xs) ∷ m) = Distinct xs × Listed m

Finds-cons :
    (i name : Str) (xs : List ServiceInstance) (m : Dict Str (List ServiceInstance))
    (r : Option (List ServiceInstance)) (q : Option (Str × List ServiceInstance))
    → lookup name m ≡ none
    → Marks i xs r
    → Finds i m q
    → Finds i ((name, xs) ∷ m) (elim r [ none ↦ q | some ys ↦ some (name, ys) ])
unfolding lookup find
Finds-cons i name xs m (some ys) q e h f = rw (if_pos (Str_discrete name name) refl) h
Finds-cons i name xs m none none e h f = λ j. ground (arith, f j)
Finds-cons i name xs m none (some (n, ys)) e h f = elim (Str_discrete name n) [
  | yes p ↦ absurd (ground (arith, f.1))
  | no p ↦ rw (if_neg _ p) f
]

find_service-Finds :
    (i : Str) (m : Dict Str (List ServiceInstance))
    → IsMap m
    → Listed m
    → Finds i m (find_service i m)
unfolding find_service
find_service-Finds i [] v l = λ name. unfold lookup find in refl
find_service-Finds i ((name, xs) ∷ m) v l =
    Finds-cons i name xs m _ _ v.0 (mark_down-Marks i xs l.0) (find_service-Finds i m v.1 l.1)

Listed_lem :
    (m : Dict Str (List ServiceInstance))
    → IsMap m
    → ((name : Str) → Distinct (or_empty (lookup name m)))
    → Listed m
unfolding lookup
Listed_lem [] v l = tt
Listed_lem ((name, xs) ∷ m) v l = (
  rw (if_pos (Str_discrete name name) refl) at (l name),
  Listed_lem m v.1 λ j. elim (Str_discrete name j) [
    | yes p ↦ subst (λ n. Distinct (or_empty (lookup n m))) p (rw v.0 tt)
    | no p ↦ rw (if_neg _ p) at (l j)
  ],
)

-- What may be said of the outcome of `Deregister`: see `deregister-get_instances`.
abbrev pub Deregisters : Registry → Str → Option Registry → Type 0
Deregisters r i none = (name : Str) → find i (stored r name) ≡ none
Deregisters r i (some r') =
    (name : Str) × (x : ServiceInstance) × (find i (stored r name) ≡ some x)
    × (find i (stored r' name) ≡ some (record x { status = down }))
    × IsValid r'
    × ((j k : Str)
        → find k (get_instances r' j)
          ≡ ite (Str_discrete name j) (ite (Str_discrete i k) none (find k (get_instances r j)))
              (find k (get_instances r j)))

after_search :
    (r : Registry) (i : Str) (q : Option (Str × List ServiceInstance))
    → IsValid r
    → find_service i r.services ≡ q
    → Finds i r.services q
    → Deregisters r i (deregister r i)
unfolding deregister get_instances unless_down
after_search r i none v e f = rw (e, deregister) f
after_search r i (some (name, ys)) v e (x, found, d, marked) =
    rw (e, deregister)
      (
        name,
        x,
        found,
        ap (find i) (stored-insert r name name ys ys) ∙ ground (arith, marked i),
        insert-IsValid r name ys ys v d,
        λ j k.
            ap (λ l. find k (active l)) (stored-insert r name j ys ys)
            ∙ ground (
              arith,
              marked k,
              find-active k ys d,
              find-active k (stored r name) (v.distinct name),
            ),
      )

-- On a valid registry `Deregister` fails exactly where the ID names no instance in any service. Else
-- there is a service in which it named one, which stays stored with the status "down"; the registry
-- stays valid, `GetInstances` of that service lists the ID no more, and all else that it lists is
-- unchanged.
pub deregister-get_instances :
    (r : Registry) (i : Str) → IsValid r → Deregisters r i (deregister r i)
deregister-get_instances r i v =
    after_search r i (find_service i r.services) v refl
      (find_service-Finds i r.services v.services_map (Listed_lem _ v.services_map v.distinct))
