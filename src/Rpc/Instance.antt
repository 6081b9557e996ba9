-- ===== src/Rpc/Instance.antt =====
-- pkg/rpc/load_balancer.go: `ServiceInstance`, and the test for instances that are not down.
use mmo_server.Common.{ℕ, List, [], ◌∷◌, ite, Str, Str_discrete, Dict}

pub record ServiceInstance : Type 0 where
  pub id : Str
  pub name : Str
  pub endpoint : Str
  pub tags : Dict Str Str
  pub weight : ℕ
  pub status : Str

abbrev pub down : Str
down = b'd' ∷ b'o' ∷ b'w' ∷ b'n' ∷ []

-- The loops that keep the instances whose status is not "down".
unfoldable pub active : List ServiceInstance → List ServiceInstance
active [] = []
active (x ∷ xs) = ite (Str_discrete x.status down) (active xs) (x ∷ active xs)
