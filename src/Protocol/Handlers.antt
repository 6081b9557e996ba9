-- ===== src/Protocol/Handlers.antt =====
-- pkg/protocol/handler_registry.go: `HandlerRegistry`. A handler is an opaque number.
pub mod Laws
mod Tests
use mmo_server.Common.{
  ℕ, Bool, true, false, List, [], ◌∷◌, map, Option, none, some, length, ◌==◌, if◌then◌else◌, Dict,
  nat_key, lookup, insert, erase, or_empty,
}

abbrev pub HandlerRegistry : Type 0
HandlerRegistry = Dict ℕ (Dict ℕ ℕ)

abbrev pub new_handler_registry : HandlerRegistry
new_handler_registry = []

pub data HandlerError : Type 0 where
  already_registered : HandlerError
  no_handlers : HandlerError
  no_handler : HandlerError

-- The service's map, which is made where there is none.
abbrev with_service : ℕ → HandlerRegistry → HandlerRegistry
with_service service r = elim (lookup service r) [ none ↦ insert service [] r | some m ↦ r ]

-- `RegisterHandler`, with its error if any.
unfoldable pub register_handler :
    HandlerRegistry → ℕ → ℕ → ℕ → HandlerRegistry × Option HandlerError
register_handler r service message handler =
    let handlers = or_empty (lookup service r) in
    elim (lookup message handlers) [
      | some h ↦ (with_service service r, some already_registered)
      | none ↦ (insert service (insert message handler handlers) (with_service service r), none)
    ]

pub data Handler : Type 0 where
  found : ℕ → Handler
  missing : HandlerError → Handler

unfoldable pub get_handler : HandlerRegistry → ℕ → ℕ → Handler
get_handler r service message = elim (lookup service r) [
  | none ↦ missing no_handlers
  | some handlers ↦ elim (lookup message handlers) [ none ↦ missing no_handler | some h ↦ found h ]
]

abbrev drop_service : ℕ → Dict ℕ ℕ → HandlerRegistry → HandlerRegistry
drop_service service handlers r =
    if length handlers == 0 then erase service r else insert service handlers r

-- `UnregisterHandler`, with its error if any.
unfoldable pub unregister_handler : HandlerRegistry → ℕ → ℕ → HandlerRegistry × Option HandlerError
unregister_handler r service message = elim (lookup service r) [
  | none ↦ (r, some no_handlers)
  | some handlers ↦ elim (lookup message handlers) [
    | none ↦ (r, some no_handler)
    | some h ↦ (drop_service service (erase message handlers) r, none)
  ]
]

abbrev pub list_handlers : HandlerRegistry → Dict ℕ (List ℕ)
list_handlers r = map (λ e. (e.0, map (λ h. h.0) e.1)) r

abbrev pub has_handler : HandlerRegistry → ℕ → ℕ → Bool
has_handler r service message = elim (lookup service r) [
  | none ↦ false
  | some handlers ↦ elim (lookup message handlers) [ none ↦ false | some h ↦ true ]
]
