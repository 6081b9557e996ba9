-- ===== src/Rpc/Balancer/Laws.antt =====
-- What `GetInstance` of pkg/rpc/load_balancer.go may return.
use mmo_server.Common.{
  ℕ, zero, suc, ◌≡◌, ◌≢◌, ◌⊎◌, inl, inr, refl, sym, ap, subst, List, [], ◌∷◌, some, Option-cases,
  Bool-cases, if_pos, if_neg, get_elem?, length, Str, Str_discrete, str_key, lookup, arith,
}
use mmo_server.Common.Ints.{int_add, int_lt}
use mmo_server.Rpc.Instance.{ServiceInstance, down, active}
use mmo_server.Rpc.Selector.{
  selected, index, intn, random_select, round_robin_select, weighted_select, pick, weight_of,
  total_weight,
}
use mmo_server.Rpc.Registry.{Registry, get_instances}
use mmo_server.Rpc.Registry.View.{stored}
use mmo_server.Rpc.Balancer.{
  Selector, random, round_robin, weighted, LoadBalancer, select, select_some, get_instance,
}

abbrev pub Holds : List ServiceInstance → ServiceInstance → Type 0
Holds xs x = (j : ℕ) × (get_elem? xs j ≡ some x)

Holds-cons : (x y : ServiceInstance) (xs : List ServiceInstance) → Holds xs x → Holds (y ∷ xs) x
Holds-cons x y xs (j, e) = (suc j, e)

index-Holds :
    (xs : List ServiceInstance) (i : ℕ) (x : ServiceInstance) → index xs i ≡ selected x → Holds xs x
index-Holds xs i x e = (i, ground arith)

pick-Holds :
    (first : ServiceInstance) (target current : ℕ) (xs : List ServiceInstance)
    → (pick first target current xs ≡ first) ⊎ Holds xs (pick first target current xs)
unfolding pick
pick-Holds first target current [] = inl refl
pick-Holds first target current (x ∷ xs) =
    elim (Bool-cases (int_lt target (int_add current (weight_of x)))) [
      | inl e ↦ rw e (inr (0, refl))
      | inr e ↦ rw e (elim (pick-Holds first target (int_add current (weight_of x)) xs) [
        | inl h ↦ inl h
        | inr h ↦ inr (Holds-cons _ x xs h)
      ])
    ]

picked-Holds :
    (y : ServiceInstance) (ys : List ServiceInstance) (target : ℕ)
    → Holds (y ∷ ys) (pick y target 0 (y ∷ ys))
picked-Holds y ys target = elim (pick-Holds y target 0 (y ∷ ys)) [
  | inl h ↦ (0, ap some (sym h))
  | inr h ↦ h
]

random-Holds :
    (draw : ℕ → ℕ) (xs : List ServiceInstance) (x : ServiceInstance)
    → random_select draw xs ≡ selected x
    → Holds xs x
unfolding random_select
random-Holds draw [] x e = absurd (cc)
random-Holds draw (y ∷ ys) x e = elim (Option-cases (intn draw (length (y ∷ ys)))) [
  | inl n ↦ absurd (ground arith)
  | inr (i, s) ↦ index-Holds (y ∷ ys) i x (ground arith)
]

weighted-Holds :
    (draw : ℕ → ℕ) (xs : List ServiceInstance) (x : ServiceInstance)
    → weighted_select draw xs ≡ selected x
    → Holds xs x
unfolding weighted_select
weighted-Holds draw [] x e = absurd (cc)
weighted-Holds draw (y ∷ ys) x e = elim (Option-cases (intn draw (total_weight (y ∷ ys) 0))) [
  | inl n ↦ absurd (ground arith)
  | inr (i, s) ↦
      let same : pick y i 0 (y ∷ ys) ≡ x = ground arith in
      subst (Holds (y ∷ ys)) same (picked-Holds y ys i)
]

select-Holds :
    (draw : ℕ → ℕ) (s : Selector) (xs : List ServiceInstance) (x : ServiceInstance)
    → (select draw s xs).1 ≡ selected x
    → Holds xs x
unfolding select round_robin_select
select-Holds draw random xs x e = random-Holds draw xs x e
select-Holds draw weighted xs x e = weighted-Holds draw xs x e
select-Holds draw (round_robin next) [] x e = absurd (cc)
select-Holds draw (round_robin next) (y ∷ ys) x e = index-Holds (y ∷ ys) _ x e

active-Holds :
    (xs : List ServiceInstance) (x : ServiceInstance)
    → Holds (active xs) x
    → (x.status ≢ down) × Holds xs x
unfolding active
active-Holds [] x (j, e) = absurd (cc)
active-Holds (y ∷ ys) x (j, e) = elim (Str_discrete y.status down) [
  | yes p ↦
      let (n, h) = active-Holds ys x (j, rw (if_pos (Str_discrete y.status down) p) at e) in
      (n, Holds-cons x y ys h)
  | no p ↦
      first p (λ i q. active-Holds ys x (i, q)) j (rw (if_neg (Str_discrete y.status down) p) at e)
]
  where
    first :
        y.status ≢ down
        → ((i : ℕ) → get_elem? (active ys) i ≡ some x → (x.status ≢ down) × Holds ys x)
        → (i : ℕ) → get_elem? (y ∷ active ys) i ≡ some x
        → (x.status ≢ down) × Holds (y ∷ ys) x
    first p rest zero q = let same : y ≡ x = cc in (subst (λ z. z.status ≢ down) same p, (0, q))
    first p rest (suc i) q = let (n, h) = rest i q in (n, Holds-cons x y ys h)

select_some-Holds :
    (draw : ℕ → ℕ) (lb : LoadBalancer) (name : Str) (xs : List ServiceInstance)
    (x : ServiceInstance)
    → (select_some draw lb name xs).1 ≡ selected x
    → Holds xs x
select_some-Holds draw lb name [] x e = absurd (cc)
select_some-Holds draw lb name (y ∷ ys) x e = elim (Option-cases (lookup name lb.selectors)) [
  | inl n ↦ select-Holds draw random (y ∷ ys) x (rw n at e)
  | inr (s, h) ↦ select-Holds draw s (y ∷ ys) x (rw h at e)
]

-- Whatever the selector and the draws, an instance that `GetInstance` returns is stored in the
-- registry under the service's name, and is not down.
pub get_instance-active :
    (draw : ℕ → ℕ) (lb : LoadBalancer) (r : Registry) (name : Str) (x : ServiceInstance)
    → (get_instance draw lb r name).1 ≡ selected x
    → (x.status ≢ down) × Holds (stored r name) x
unfolding get_instance get_instances
get_instance-active draw lb r name x e =
    active-Holds (stored r name) x (select_some-Holds draw lb name (active (stored r name)) x e)
