-- ===== src/Protocol/Balancer/Fairness.antt =====
-- What a run of selections gives by the two balancers of pkg/protocol/router.go.
use mmo_server.Common.{
  ℕ, zero, suc, ◌+◌, ◌-◌, ◌%◌, ◌≤◌, ◌<◌, ◌≡◌, refl, ap, subst, ◌∙◌, List, [], ◌∷◌, ◌++◌, map,
  Option, none, some, length, get_elem?, take, drop, replicate, length-append, length-replicate,
  ltb, if◌then◌else◌, Str, str_key, insert, lookup-insert_self, arith,
}
use mmo_server.Common.Ints.{int_max, int_add_small, int_lt_small, int_rem_small}
use mmo_server.Common.Rotation.{turns, turns_all}
use mmo_server.Protocol.Discovery.{ServiceInstance}
use mmo_server.Protocol.Balancer.{
  Selection, selected, panic, Counters, count_of, available, index, take_turn, round_robin_from,
  round_robin_select, total_weight, pick_by_weight, weighted_from, weighted_select,
}
use native.Mathlib.Nat.{mod-lt, zero-add}

abbrev pub Select : Type 0
Select = Counters → List ServiceInstance → Counters × Selection

-- Selections one after the other, from the same instances.
unfoldable pub run : Select → Counters → List ServiceInstance → ℕ → List Selection
run select counters xs zero = []
run select counters xs (suc k) = (select counters xs).1 ∷ run select (select counters xs).0 xs k

abbrev outcome : Option ServiceInstance → Selection
outcome none = panic
outcome (some x) = selected x

count_of-insert :
    (name : Str) (n : ℕ) (counters : Counters) → count_of name (insert name n counters) ≡ n
unfolding count_of
count_of-insert name n counters = rw (lookup-insert_self name n counters, count_of)

-- A balancer that takes turns by its counter of a service.
run-turns :
    (select : Select) (xs l : List ServiceInstance) (name : Str)
    → ((counters : Counters)
        → count_of name counters < int_max
        → select counters xs ≡ (
          insert name (count_of name counters + 1) counters,
          outcome (get_elem? l (count_of name counters % length l)),
        ))
    → (counters : Counters) (c k : ℕ) → count_of name counters ≡ c
    → c + k ≤ int_max
    → run select counters xs k ≡ map outcome (turns l c k)
unfolding run turns
run-turns select xs l name one counters c zero e h = refl
run-turns select xs l name one counters c (suc k) e h =
    let step = one counters (omega arith) in
    rw (step, e)
      (ap (◌∷◌ (outcome (get_elem? l (c % length l)))) (
        run-turns select xs l name one (insert name (c + 1) counters) (c + 1) k
          (count_of-insert name (c + 1) counters) (omega arith)))

index-outcome : (xs : List ServiceInstance) (i : ℕ) → index xs i ≡ outcome (get_elem? xs i)
index-outcome xs i = ground arith

round_robin_turn :
    (x : ServiceInstance) (xs : List ServiceInstance) (counters : Counters)
    → 0 < length (available (x ∷ xs))
    → length (available (x ∷ xs)) ≤ int_max
    → count_of x.service_name counters < int_max
    → round_robin_select counters (x ∷ xs) ≡ (
      insert x.service_name (count_of x.service_name counters + 1) counters,
      outcome (
          get_elem?
            (available (x ∷ xs))
            (count_of x.service_name counters % length (available (x ∷ xs)))),
    )
round_robin_turn x xs counters some_up h c =
    unfold round_robin_select in from (available (x ∷ xs)) some_up h
  where
    from :
        (l : List ServiceInstance)
        → 0 < length l
        → length l ≤ int_max
        → round_robin_from counters x.service_name l ≡ (
          insert x.service_name (count_of x.service_name counters + 1) counters,
          outcome (get_elem? l (count_of x.service_name counters % length l)),
        )
    from [] p q = absurd (omega arith)
    from (a ∷ l) p q =
        unfold round_robin_from take_turn in
        rw
          (
            int_add_small (count_of x.service_name counters) 1 (omega arith),
            int_rem_small (count_of x.service_name counters) (length (a ∷ l)) (omega arith) q,
          )
          (ground arith)

map-outcome-some : (l : List ServiceInstance) → map outcome (map some l) ≡ map selected l
map-outcome-some [] = refl
map-outcome-some (x ∷ l) = ap (◌∷◌ (selected x)) (map-outcome-some l)

-- As many selections of `RoundRobinLoadBalancer` as instances are up, from a list with one up, and
-- while the counter of its service does not overflow: each instance that is up is selected once, in
-- the order of the list, from the counter's place on and around its end.
pub round_robin_fair :
    (x : ServiceInstance) (xs : List ServiceInstance) (counters : Counters)
    → let l = available (x ∷ xs) in
      let c = count_of x.service_name counters in
      0 < length l
      → c + length l ≤ int_max
      → run round_robin_select counters (x ∷ xs) (length l)
        ≡ map selected (drop (c % length l) l ++ take (c % length l) l)
round_robin_fair x xs counters some_up h =
    let l = available (x ∷ xs) in
    let c = count_of x.service_name counters in
    run-turns round_robin_select (x ∷ xs) l x.service_name
      (λ d p. round_robin_turn x xs d some_up (omega arith) p) counters c (length l) refl h
    ∙ ap (map outcome) (turns_all l c some_up)
    ∙ map-outcome-some (drop (c % length l) l ++ take (c % length l) l)

-- Each instance as often as its weight.
unfoldable pub expand : List ServiceInstance → List ServiceInstance
expand [] = []
expand (x ∷ xs) = replicate x.weight x ++ expand xs

-- The sum of the weights as a number.
abbrev pub weights : List ServiceInstance → ℕ
weights [] = 0
weights (x ∷ xs) = x.weight + weights xs

length-expand : (xs : List ServiceInstance) → length (expand xs) ≡ weights xs
unfolding expand
length-expand [] = refl
length-expand (x ∷ xs) = omega (
  arith,
  length-append (replicate x.weight x) (expand xs),
  length-replicate x.weight x,
  length-expand xs,
)

total-weights :
    (xs : List ServiceInstance) (t : ℕ)
    → t + weights xs ≤ int_max
    → total_weight xs t ≡ t + weights xs
unfolding total_weight
total-weights [] t h = omega arith
total-weights (x ∷ xs) t h =
    rw (int_add_small t x.weight (omega arith))
      (omega (arith, total-weights xs (t + x.weight) (omega arith)))

get-replicate_append :
    (w i : ℕ) (x : ServiceInstance) (ys : List ServiceInstance)
    → get_elem? (replicate w x ++ ys) i ≡ (if ltb i w then some x else get_elem? ys (i - w))
get-replicate_append zero i x ys = ground arith
get-replicate_append (suc w) zero x ys = ground arith
get-replicate_append (suc w) (suc i) x ys = ground (arith, get-replicate_append w i x ys)

sub_sub : (a b c : ℕ) → a - b - c ≡ a - (b + c)
sub_sub a b c = omega arith

pick-expand :
    (first : ServiceInstance) (xs : List ServiceInstance) (count running : ℕ)
    → running ≤ count
    → count < running + weights xs
    → running + weights xs ≤ int_max
    → get_elem? (expand xs) (count - running) ≡ some (pick_by_weight first count running xs)
unfolding pick_by_weight expand
pick-expand first [] count running p q r = absurd (omega arith)
pick-expand first (x ∷ xs) count running p q r =
    rw
      (
        get-replicate_append x.weight (count - running) x (expand xs),
        int_add_small running x.weight (omega arith),
        int_lt_small count (running + x.weight) (omega arith) (omega arith),
      )
      (ground
        (arith, sub_sub count running x.weight, pick-expand first xs count (running + x.weight)))

weighted_turn :
    (x : ServiceInstance) (xs : List ServiceInstance) (counters : Counters)
    → 0 < weights (available (x ∷ xs))
    → weights (available (x ∷ xs)) ≤ int_max
    → count_of x.service_name counters < int_max
    → weighted_select counters (x ∷ xs) ≡ (
      insert x.service_name (count_of x.service_name counters + 1) counters,
      outcome (
          get_elem?
            (expand (available (x ∷ xs)))
            (count_of x.service_name counters % length (expand (available (x ∷ xs))))),
    )
weighted_turn x xs counters heavy h c = unfold weighted_select in from (available (x ∷ xs)) heavy h
  where
    count : ℕ
    count = count_of x.service_name counters

    from :
        (l : List ServiceInstance)
        → 0 < weights l
        → weights l ≤ int_max
        → weighted_from counters x.service_name l ≡ (
          insert x.service_name (count + 1) counters,
          outcome (get_elem? (expand l) (count % length (expand l))),
        )
    from [] p q = absurd (omega arith)
    from (a ∷ l) p q =
        let total = total-weights (a ∷ l) 0 (omega arith) in
        let lt : count % weights (a ∷ l) < weights (a ∷ l) = mod-lt count p in
        let i = count % weights (a ∷ l) in
        let i-0 : i ≡ i - 0 = omega arith in
        let picked : get_elem? (expand (a ∷ l)) i ≡ some (pick_by_weight a i 0 (a ∷ l)) =
          ap (get_elem? (expand (a ∷ l))) i-0
          ∙ pick-expand a (a ∷ l) i 0 (omega arith) (omega arith) (omega arith) in
        unfold weighted_from in
        rw
          (
            total,
            length-expand (a ∷ l),
            int_add_small count 1 (omega arith),
            zero-add,
            int_rem_small count (weights (a ∷ l)) (omega arith) q,
            picked,
          )
          (ground arith)

-- As many selections of `WeightedLoadBalancer` as the weights of the instances that are up come to,
-- where that is not 0 and neither the sum nor the counter of the service overflows: each instance
-- that is up is selected as often as its weight says, its selections one after the other, in the
-- order of the list, from the counter's place on and around its end.
pub weighted_fair :
    (x : ServiceInstance) (xs : List ServiceInstance) (counters : Counters)
    → let l = expand (available (x ∷ xs)) in
      let c = count_of x.service_name counters in
      let total = weights (available (x ∷ xs)) in
      0 < total
      → c + total ≤ int_max
      → run weighted_select counters (x ∷ xs) total
        ≡ map selected (drop (c % total) l ++ take (c % total) l)
weighted_fair x xs counters heavy h =
    let l = expand (available (x ∷ xs)) in
    let c = count_of x.service_name counters in
    let total = weights (available (x ∷ xs)) in
    let size : length l ≡ total = length-expand (available (x ∷ xs)) in
    run-turns weighted_select (x ∷ xs) l x.service_name
      (λ d p. weighted_turn x xs d heavy (omega arith) p) counters c total refl h
    ∙ ap (map outcome) (
        subst (λ n. turns l c n ≡ map some (drop (c % n) l ++ take (c % n) l)) size
          (turns_all l c (omega arith)))
    ∙ map-outcome-some (drop (c % total) l ++ take (c % total) l)
