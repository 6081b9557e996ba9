-- ===== src/Common/Split.antt =====
-- Go's `strings.Split` at a byte.
use Prim.Native.Nat.{ℕ, zero, suc, ◌+◌, ◌/◌, ◌%◌, ◌<◌}
use mathlib.Core.Path.{◌≡◌, refl}
use mathlib.Core.Bool.{Bool, true, false}
use mathlib.Core.List.{List, [], ◌∷◌, ◌++◌}
use native.Mathlib.Omega.{arith}
use mmo_server.Common.Tests.{◌==◌, if◌then◌else◌}
use mmo_server.Common.Words.{Bytes}
use mmo_server.Common.Decimal.{digits, decimal}

abbrev extend : ℕ → List Bytes → List Bytes
extend c [] = (c ∷ []) ∷ []
extend c (part ∷ parts) = (c ∷ part) ∷ parts

unfoldable pub split : ℕ → Bytes → List Bytes
split sep [] = [] ∷ []
split sep (c ∷ cs) = let rest = split sep cs in if c == sep then [] ∷ rest else extend c rest

unfoldable pub lacks? : ℕ → Bytes → Bool
lacks? sep [] = true
lacks? sep (c ∷ cs) = let rest = lacks? sep cs in if c == sep then false else rest

pub split-whole : (sep : ℕ) (cs : Bytes) → lacks? sep cs ≡ true → split sep cs ≡ cs ∷ []
unfolding split lacks?
split-whole sep [] h = refl
split-whole sep (c ∷ cs) h = ground (arith, split-whole sep cs)

pub split-append :
    (sep : ℕ) (cs ds : Bytes)
    → lacks? sep cs ≡ true
    → split sep (cs ++ (sep ∷ ds)) ≡ cs ∷ split sep ds
unfolding split lacks?
split-append sep [] ds h = ground arith
split-append sep (c ∷ cs) ds h = ground (arith, split-append sep cs ds)

lacks?-digits :
    (sep fuel n : ℕ) (rest : Bytes)
    → 57 < sep
    → lacks? sep rest ≡ true
    → lacks? sep (digits fuel n rest) ≡ true
unfolding digits lacks?
lacks?-digits sep zero n rest h k = k
lacks?-digits sep (suc fuel) n rest h k =
    ground (arith, lacks?-digits sep fuel (n / 10) ((48 + n % 10) ∷ rest) h)

pub lacks?-decimal : (sep n : ℕ) → 57 < sep → lacks? sep (decimal n) ≡ true
unfolding decimal
lacks?-decimal sep n h = lacks?-digits sep (suc n) n [] h (unfold lacks? in refl)
