-- ===== src/Common/Dicts.antt =====
-- Go's maps as association lists. The order of a list stands for one order of iteration, which Go
-- leaves open.
use Prim.Native.Nat.{ℕ, ◌+◌}
use mathlib.Core.Path.{◌≡◌, refl, subst}
use mathlib.Core.Logic.{ite, ◌≢◌, if_pos, if_neg}
use mathlib.Core.Option.{Option, none, some}
use mathlib.Core.List.{List, [], ◌∷◌}
use native.Mathlib.Decide.{ℕ_discrete}
use native.Mathlib.Omega.{arith}
use mmo_server.Common.Lists.{length}
use mmo_server.Common.Words.{Bytes}

-- A Go string is the list of its bytes.
abbrev pub Str : Type 0
Str = Bytes

unfoldable pub Str_discrete : Discrete Str
unfolding ℕ_discrete
Str_discrete [] [] = yes refl
Str_discrete [] (y ∷ ys) = no (λ e. cc)
Str_discrete (x ∷ xs) [] = no (λ e. cc)
Str_discrete (x ∷ xs) (y ∷ ys) = elim (ℕ_discrete x y) [
  | no h ↦ no (λ e. h (cc))
  | yes h ↦ elim (Str_discrete xs ys) [ yes k ↦ yes (cc) | no k ↦ no (λ e. k (cc)) ]
]

pub record Key (K : Type 0) : Type 0 where
  pub dec : Discrete K

instance abbrev pub str_key : Key Str
str_key = record { dec = Str_discrete }

instance abbrev pub nat_key : Key ℕ
nat_key = record { dec = ℕ_discrete }

abbrev pub Dict : Type 0 → Type 0 → Type 0
Dict K V = List (K × V)

module _ {K V : Type 0} ⦃key : Key K⦄ where
  unfoldable pub lookup : K → Dict K V → Option V
  lookup k [] = none
  lookup k ((j, v) ∷ m) = ite (key.dec j k) (some v) (lookup k m)

  -- `m[k] = v`
  unfoldable pub insert : K → V → Dict K V → Dict K V
  insert k v [] = (k, v) ∷ []
  insert k v ((j, w) ∷ m) = ite (key.dec j k) ((k, v) ∷ m) ((j, w) ∷ insert k v m)

  -- `delete(m, k)`
  unfoldable pub erase : K → Dict K V → Dict K V
  erase k [] = []
  erase k ((j, w) ∷ m) = ite (key.dec j k) (erase k m) ((j, w) ∷ erase k m)

  -- No key twice.
  abbrev pub IsMap : Dict K V → Type 0
  IsMap [] = Unit {0}
  IsMap ((j, w) ∷ m) = (lookup j m ≡ none) × IsMap m

  pub lookup-insert :
      (k j : K) (v : V) (m : Dict K V)
      → lookup j (insert k v m) ≡ ite (key.dec k j) (some v) (lookup j m)
  unfolding lookup insert
  lookup-insert k j v [] = refl
  lookup-insert k j v ((i, w) ∷ m) = ground (arith, lookup-insert k j v m)

  pub lookup-insert_self : (k : K) (v : V) (m : Dict K V) → lookup k (insert k v m) ≡ some v
  lookup-insert_self k v m = ground (arith, lookup-insert k k v m)

  pub lookup-insert_ne :
      (k j : K) (v : V) (m : Dict K V) → k ≢ j → lookup j (insert k v m) ≡ lookup j m
  lookup-insert_ne k j v m h = ground (arith, lookup-insert k j v m)

  pub lookup-erase :
      (k j : K) (m : Dict K V) → lookup j (erase k m) ≡ ite (key.dec k j) none (lookup j m)
  unfolding lookup erase
  lookup-erase k j [] = ground arith
  lookup-erase k j ((i, w) ∷ m) = ground (arith, lookup-erase k j m)

  pub insert-IsMap : (k : K) (v : V) (m : Dict K V) → IsMap m → IsMap (insert k v m)
  unfolding lookup insert
  insert-IsMap k v [] h = (refl, tt)
  insert-IsMap k v ((i, w) ∷ m) h = ground (arith, insert-IsMap k v m h.1, lookup-insert k i v m)

  pub erase-IsMap : (k : K) (m : Dict K V) → IsMap m → IsMap (erase k m)
  unfolding lookup erase
  erase-IsMap k [] h = tt
  erase-IsMap k ((i, w) ∷ m) h = ground (arith, erase-IsMap k m h.1, lookup-erase k i m)

  pub erase_absent : (k : K) (m : Dict K V) → lookup k m ≡ none → erase k m ≡ m
  unfolding lookup erase
  erase_absent k [] h = refl
  erase_absent k ((i, w) ∷ m) h = ground (arith, erase_absent k m)

  pub length-erase :
      (k : K) (v : V) (m : Dict K V)
      → IsMap m
      → lookup k m ≡ some v
      → length (erase k m) + 1 ≡ length m
  unfolding lookup erase
  length-erase k v [] h e = absurd (cc)
  length-erase k v ((i, w) ∷ m) h e = elim (key.dec i k) [
    | yes p ↦ rw (if_pos _ p, erase_absent k m (subst (λ j. lookup j m ≡ none) p h.0)) (omega arith)
    | no p ↦ rw (if_neg _ p) (omega (arith, length-erase k v m h.1 (ground arith)))
  ]

  pub length-insert_new :
      (k : K) (v : V) (m : Dict K V) → lookup k m ≡ none → length (insert k v m) ≡ length m + 1
  unfolding lookup insert
  length-insert_new k v [] e = omega arith
  length-insert_new k v ((i, w) ∷ m) e = ground (arith, length-insert_new k v m)

  pub length-insert_old :
      (k : K) (v w : V) (m : Dict K V) → lookup k m ≡ some w → length (insert k v m) ≡ length m
  unfolding lookup insert
  length-insert_old k v w [] e = absurd (cc)
  length-insert_old k v w ((i, x) ∷ m) e = ground (arith, length-insert_old k v w m)

-- A missing key of a map of slices or maps reads as the nil one, which is empty.
abbrev pub or_empty {ℓ} : {A : Type ℓ} → Option (List A) → List A
or_empty none = []
or_empty (some xs) = xs
