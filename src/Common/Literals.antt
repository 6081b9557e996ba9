-- ===== src/Common/Literals.antt =====
-- Go's string literals: the bytes of a text.
use Prim.Native.Char.{code}
use Prim.Native.String.{String}
use mathlib.Core.List.{List, [], ◌∷◌, ◌++◌}
use mmo_server.Common.Words.{Bytes}

abbrev pub utf8 : String → Bytes
utf8 String.[] = []
utf8 (String.◌∷◌ letter text) = code letter ∷ utf8 text

-- `strings.Join`
abbrev pub join : Bytes → List Bytes → Bytes
join sep [] = []
join sep (s ∷ []) = s
join sep (s ∷ t ∷ ss) = s ++ sep ++ join sep (t ∷ ss)
