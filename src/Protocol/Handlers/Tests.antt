-- ===== src/Protocol/Handlers/Tests.antt =====
-- pkg/protocol/handler_registry.go with one handler.
use mmo_server.Common.{
  ℕ, ◌≡◌, refl, ◌&&◌, [], ◌∷◌, none, some, if◌then◌else◌, ◌==◌, nat_key, ℕ_discrete, lookup, arith,
}
use mmo_server.Protocol.Handlers.{HandlerRegistry, unregister_handler}
use mmo_server.Protocol.Handlers.Laws.{handler_of, IsFilled, unregister_handler-handler_of}

abbrev one : HandlerRegistry
one = (1, (2, 7) ∷ []) ∷ []

one-IsFilled : IsFilled one
unfolding lookup
one-IsFilled service e = ground arith

one-known : handler_of one 1 2 ≡ some 7
unfolding lookup ℕ_discrete
one-known = refl

unregister_handler-handler_of_example :
    ((unregister_handler one 1 2).1 ≡ none)
    × ((s' t' : ℕ)
        → handler_of (unregister_handler one 1 2).0 s' t'
          ≡ (if (1 == s') && (2 == t') then none else handler_of one s' t'))
    × IsFilled (unregister_handler one 1 2).0
unregister_handler-handler_of_example =
    unregister_handler-handler_of one 1 2 7 one-known one-IsFilled
