-- ===== src/Common/Rotation.antt =====
-- A counter modulo the length of a list walks through the list in turn.
use Prim.Native.Nat.{ℕ, zero, suc, ◌+◌, ◌-◌, ◌%◌, ◌≤◌, ◌<◌}
use mathlib.Core.Path.{◌≡◌, refl, sym, ap, ap₂, ◌∙◌}
use mathlib.Core.List.{List, [], ◌∷◌, ◌++◌, map, map-append}
use mathlib.Core.Option.{Option, some}
use native.Mathlib.Nat.{zero-add, add-zero, suc-add, mod-lt, mod-add-mod, mod_self}
use native.Mathlib.Omega.{arith}
use mmo_server.Common.Lists.{length, get_elem?, take, drop, take-enough, length-drop}

next : (c j n : ℕ) → c % n ≡ j → suc j < n → (c + 1) % n ≡ suc j
next c j n e h = grind arith

wrapped : (c n : ℕ) → 0 < n → (c + (n - c % n)) % n ≡ 0
wrapped c n h =
    let lt : c % n < n = mod-lt c h in
    let e : c % n + (n - c % n) ≡ n = omega arith in
    sym (mod-add-mod c n (n - c % n)) ∙ ap (λ k. k % n) e ∙ mod_self n

module _ {ℓ} {A : Type ℓ} where
  -- The entries at c, c + 1, …, each modulo the length of the list.
  unfoldable pub turns : List A → ℕ → ℕ → List (Option A)
  turns l c zero = []
  turns l c (suc k) = get_elem? l (c % length l) ∷ turns l (c + 1) k

  turns_add : (l : List A) (c j k : ℕ) → turns l c (j + k) ≡ turns l c j ++ turns l (c + j) k
  unfolding turns
  turns_add l c zero k = rw (zero-add, add-zero)
  turns_add l c (suc j) k =
      let e : c + 1 + j ≡ c + suc j = omega arith in
      rw suc-add (
        ap (◌∷◌ (get_elem? l (c % length l)))
          (turns_add l (c + 1) j k ∙ ap (λ n. turns l (c + 1) j ++ turns l n k) e))

  drop-get :
      (l : List A) (j : ℕ)
      → j < length l
      → (a : A) × (get_elem? l j ≡ some a) × (drop j l ≡ a ∷ drop (suc j) l)
  drop-get [] j h = absurd (omega arith)
  drop-get (x ∷ l) zero h = (x, refl, refl)
  drop-get (x ∷ l) (suc j) h = drop-get l j (omega arith)

  turns_cons :
      (l : List A) (c j m : ℕ) (a : A)
      → get_elem? l (c % length l) ≡ some a
      → drop j l ≡ a ∷ drop (suc j) l
      → turns l (c + 1) m ≡ map some (take m (drop (suc j) l))
      → turns l c (suc m) ≡ map some (take (suc m) (drop j l))
  unfolding turns
  turns_cons l c j m a got dropped rest = rw (got, dropped, rest)

  -- Turns that do not pass the end of the list.
  turns_run :
      (l : List A) (c j m : ℕ)
      → c % length l ≡ j
      → j + m ≤ length l
      → turns l c m ≡ map some (take m (drop j l))
  unfolding turns
  turns_run l c j zero e h = refl
  turns_run l c j (suc zero) e h =
      let (a, got, dropped) = drop-get l j (omega arith) in
      turns_cons l c j zero a (ap (get_elem? l) e ∙ got) dropped refl
  turns_run l c j (suc (suc m)) e h =
      let (a, got, dropped) = drop-get l j (omega arith) in
      turns_cons l c j (suc m) a (ap (get_elem? l) e ∙ got) dropped
        (turns_run l (c + 1) (suc j) (suc m) (next c j (length l) e (omega arith)) (omega arith))

  -- One turn for each place: the list from the counter's place on, and then its front.
  pub turns_all :
      (l : List A) (c : ℕ)
      → 0 < length l
      → turns l c (length l) ≡ map some (drop (c % length l) l ++ take (c % length l) l)
  turns_all l c h =
      let n = length l in
      let j = c % n in
      let lt : j < n = mod-lt c h in
      let e : n ≡ (n - j) + j = omega arith in
      ap (turns l c) e
      ∙ turns_add l c (n - j) j
      ∙ ap₂ ◌++◌
          (turns_run l c j (n - j) refl (omega arith)
            ∙ ap (map some) (take-enough (n - j) (drop j l) (omega (arith, length-drop j l))))
          (turns_run l (c + (n - j)) 0 j (wrapped c n h) (omega arith))
      ∙ sym (map-append some (drop j l) (take j l))
