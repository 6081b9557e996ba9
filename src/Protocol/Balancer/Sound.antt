-- ===== src/Protocol/Balancer/Sound.antt =====
-- What the balancers of pkg/protocol/router.go select, and when they change their counters.
use mmo_server.Common.{
  ℕ, zero, suc, ◌≡◌, ◌⊎◌, inl, inr, refl, sym, ap, ◌∙◌, List, [], ◌∷◌, some, if_pos, if_neg,
  get_elem?, Str, Str_discrete, ◌==◌, Bool-cases, arith, str_key,
}
use mmo_server.Common.Ints.{int_add, int_rem, int_lt}
use mmo_server.Protocol.Discovery.{ServiceInstance, up}
use mmo_server.Protocol.Balancer.{
  selected, Counters, available, index, take_turn, round_robin_from, round_robin_select,
  pick_by_weight, weighted_from, weighted_select, count_of, total_weight,
}

-- An instance of the list that is up.
abbrev pub IsUp : ServiceInstance → List ServiceInstance → Type 0
IsUp x xs = (x.status ≡ up) × (j : ℕ) × (get_elem? xs j ≡ some x)

cons-IsUp : (x y : ServiceInstance) (xs : List ServiceInstance) → IsUp x xs → IsUp x (y ∷ xs)
cons-IsUp x y xs (s, j, g) = (s, suc j, g)

head_or_tail :
    (x y : ServiceInstance) (l : List ServiceInstance) (i : ℕ)
    → get_elem? (y ∷ l) i ≡ some x
    → (y ≡ x) ⊎ ((j : ℕ) × (get_elem? l j ≡ some x))
head_or_tail x y l zero e = inl (cc)
head_or_tail x y l (suc i) e = inr (i, e)

available-IsUp :
    (xs : List ServiceInstance) (i : ℕ) (x : ServiceInstance)
    → get_elem? (available xs) i ≡ some x
    → IsUp x xs
unfolding available
available-IsUp [] i x e = absurd (cc)
available-IsUp (y ∷ xs) i x e = elim (Str_discrete y.status up) [
  | yes p ↦
      let e' = rw (if_pos (Str_discrete y.status up) p) at e in
      elim (head_or_tail x y (available xs) i e') [
        | inl here ↦ (ap (λ z. z.status) (sym here) ∙ p, 0, ap some here)
        | inr (j, there) ↦ cons-IsUp x y xs (available-IsUp xs j x there)
      ]
  | no p ↦ cons-IsUp x y xs (available-IsUp xs i x (rw (if_neg (Str_discrete y.status up) p) at e))
]

index-selected :
    (xs : List ServiceInstance) (i : ℕ) (x : ServiceInstance)
    → index xs i ≡ selected x
    → get_elem? xs i ≡ some x
index-selected xs i x e = ground arith

-- The instance that the loop over the weights picks is the first of the list or a later one.
pick-elem :
    (first : ServiceInstance) (count running : ℕ) (xs : List ServiceInstance)
    → (pick_by_weight first count running xs ≡ first)
      ⊎ ((j : ℕ) × (get_elem? xs j ≡ some (pick_by_weight first count running xs)))
unfolding pick_by_weight
pick-elem first count running [] = inl refl
pick-elem first count running (x ∷ xs) =
    elim (Bool-cases (int_lt count (int_add running x.weight))) [
      | inl e ↦ rw e (inr (0, refl))
      | inr e ↦ rw e (elim (pick-elem first count (int_add running x.weight) xs) [
        | inl h ↦ inl h
        | inr (j, g) ↦ inr (suc j, g)
      ])
    ]

round_robin_from-elem :
    (counters : Counters) (name : Str) (l : List ServiceInstance) (x : ServiceInstance)
    → (round_robin_from counters name l).1 ≡ selected x
    → (j : ℕ) × (get_elem? l j ≡ some x)
unfolding round_robin_from take_turn
round_robin_from-elem counters name [] x e = absurd (cc)
round_robin_from-elem counters name (a ∷ l) x e = (_, index-selected (a ∷ l) _ x e)

weighted_from-elem :
    (counters : Counters) (name : Str) (l : List ServiceInstance) (x : ServiceInstance)
    → (weighted_from counters name l).1 ≡ selected x
    → (j : ℕ) × (get_elem? l j ≡ some x)
unfolding weighted_from take_turn
weighted_from-elem counters name [] x e = absurd (cc)
weighted_from-elem counters name (a ∷ l) x e = elim (Bool-cases (total_weight (a ∷ l) 0 == 0)) [
  | inl z ↦ (_, index-selected (a ∷ l) _ x (rw (z, weighted_from) at e))
  | inr nz ↦
      picked (int_rem (count_of name counters) (total_weight (a ∷ l) 0))
        (rw (nz, weighted_from) at e)
]
  where
    picked :
        (count : ℕ)
        → selected (pick_by_weight a count 0 (a ∷ l)) ≡ selected x
        → (j : ℕ) × (get_elem? (a ∷ l) j ≡ some x)
    picked count h = elim (pick-elem a count 0 (a ∷ l)) [
      | inl here ↦ (0, cc)
      | inr (j, there) ↦ (j, cc)
    ]

-- Both balancers select only instances of the list that are up.
pub select-IsUp :
    (counters : Counters) (xs : List ServiceInstance) (x : ServiceInstance)
    → ((round_robin_select counters xs).1 ≡ selected x)
      ⊎ ((weighted_select counters xs).1 ≡ selected x)
    → IsUp x xs
unfolding round_robin_select weighted_select
select-IsUp counters [] x (inl e) = absurd (cc)
select-IsUp counters [] x (inr e) = absurd (cc)
select-IsUp counters (y ∷ xs) x (inl e) =
    let (j, g) = round_robin_from-elem counters y.service_name (available (y ∷ xs)) x e in
    available-IsUp (y ∷ xs) j x g
select-IsUp counters (y ∷ xs) x (inr e) =
    let (j, g) = weighted_from-elem counters y.service_name (available (y ∷ xs)) x e in
    available-IsUp (y ∷ xs) j x g
