-- ===== src/Protocol/Handlers/Laws.antt =====
-- What is registered in the `HandlerRegistry` of pkg/protocol/handler_registry.go.
use mmo_server.Common.{
  ℕ, ◌≡◌, ◌≢◌, inl, inr, refl, sym, ap, ◌∙◌, false, ◌&&◌, [], ◌∷◌, Option, none, some, ite, if_pos,
  if_neg, length, or_empty, if◌then◌else◌, ◌==◌, Option-cases, Dict, nat_key, ℕ_discrete, lookup,
  insert, erase, lookup-insert, lookup-erase, arith,
}
use mmo_server.Protocol.Handlers.{
  HandlerRegistry, with_service, drop_service, register_handler, unregister_handler,
  already_registered,
}

-- The handler for the types of a service and of a message.
abbrev pub handler_of : HandlerRegistry → ℕ → ℕ → Option ℕ
handler_of r service message = lookup message (or_empty (lookup service r))

-- No service has an empty map.
abbrev pub IsFilled : HandlerRegistry → Type 0
IsFilled r = (service : ℕ) → lookup service r ≢ some []

or_empty-ite :
    {P : Type 0} (d : Dec P) (x : Dict ℕ ℕ) (o : Option (Dict ℕ ℕ))
    → or_empty (ite d (some x) o) ≡ ite d x (or_empty o)
or_empty-ite (yes p) x o = refl
or_empty-ite (no p) x o = refl

handlers-insert :
    (s s' : ℕ) (m : Dict ℕ ℕ) (r : HandlerRegistry)
    → or_empty (lookup s' (insert s m r)) ≡ ite (ℕ_discrete s s') m (or_empty (lookup s' r))
handlers-insert s s' m r =
    ap or_empty (lookup-insert s s' m r) ∙ or_empty-ite (ℕ_discrete s s') m (lookup s' r)

absent-service :
    (s s' : ℕ) (r : HandlerRegistry)
    → lookup s r ≡ none
    → or_empty (lookup s' (insert s [] r)) ≡ or_empty (lookup s' r)
absent-service s s' r e = handlers-insert s s' [] r ∙ elim (ℕ_discrete s s') [
  | yes p ↦
      if_pos (ℕ_discrete s s') p [] (or_empty (lookup s' r))
      ∙ sym (ap or_empty (ap (λ k. lookup k r) (sym p) ∙ e))
  | no p ↦ if_neg (ℕ_discrete s s') p [] (or_empty (lookup s' r))
]

lookup-with_service :
    (s s' : ℕ) (r : HandlerRegistry)
    → or_empty (lookup s' (with_service s r)) ≡ or_empty (lookup s' r)
lookup-with_service s s' r = elim (Option-cases (lookup s r)) [
  | inl e ↦ rw (e, with_service) (absent-service s s' r e)
  | inr (m, e) ↦ rw (e, with_service) refl
]

-- A handler is set, or taken away.
abbrev insert_or_erase : ℕ → Option ℕ → Dict ℕ ℕ → Dict ℕ ℕ
insert_or_erase t none m = erase t m
insert_or_erase t (some h) m = insert t h m

lookup-changed :
    (t t' : ℕ) (o : Option ℕ) (m : Dict ℕ ℕ)
    → lookup t' (insert_or_erase t o m) ≡ ite (ℕ_discrete t t') o (lookup t' m)
lookup-changed t t' none m = lookup-erase t t' m
lookup-changed t t' (some h) m = lookup-insert t t' h m

-- Two keys that are looked up one after the other.
two_keys :
    (s s' t t' : ℕ) (o : Option ℕ) (m m' : Dict ℕ ℕ)
    → (s ≡ s' → m ≡ m')
    → lookup t' (ite (ℕ_discrete s s') (insert_or_erase t o m) m')
      ≡ (if (s == s') && (t == t') then o else lookup t' m')
two_keys s s' t t' o m m' h = elim (ℕ_discrete s s') [
  | yes p ↦ rw (if_pos (ℕ_discrete s s') p) (lookup-changed t t' o m ∙ same_service p)
  | no p ↦ rw (if_neg (ℕ_discrete s s') p) (ground arith)
]
  where
    same_service :
        s ≡ s'
        → ite (ℕ_discrete t t') o (lookup t' m)
          ≡ (if (s == s') && (t == t') then o else lookup t' m')
    same_service p = let same = ap (lookup t') (h p) in ground (arith, same)

no_handler_of :
    (r : HandlerRegistry) (s t old : ℕ) → lookup s r ≡ none → handler_of r s t ≢ some old
unfolding lookup
no_handler_of r s t old n e =
    let empty : none ≡ some old = sym (ap (λ o. lookup t (or_empty o)) n) ∙ e in absurd (cc)

known-service :
    (r : HandlerRegistry) (s t old : ℕ) → handler_of r s t ≡ some old → with_service s r ≡ r
known-service r s t old e = elim (Option-cases (lookup s r)) [
  | inl n ↦ absurd (no_handler_of r s t old n e)
  | inr (m, q) ↦ rw (q, with_service) refl
]

-- A handler that is registered where there is one already is refused, and nothing changes.
pub register_handler-known :
    (r : HandlerRegistry) (s t h old : ℕ)
    → handler_of r s t ≡ some old
    → register_handler r s t h ≡ (r, some already_registered)
unfolding register_handler
register_handler-known r s t h old e =
    rw (e, register_handler) (ap (λ q. (q, some already_registered)) (known-service r s t old e))

-- A handler that is registered where there is none yet is the one for its types, and the others are
-- as they were.
pub register_handler-handler_of :
    (r : HandlerRegistry) (s t h : ℕ)
    → handler_of r s t ≡ none
    → ((register_handler r s t h).1 ≡ none)
      × ((s' t' : ℕ)
          → handler_of (register_handler r s t h).0 s' t'
            ≡ (if (s == s') && (t == t') then some h else handler_of r s' t'))
unfolding register_handler
register_handler-handler_of r s t h e =
    rw (e, register_handler)
      (
        refl,
        λ s' t'.
            ap (lookup t') (
              handlers-insert s s' (insert t h (or_empty (lookup s r))) (with_service s r)
              ∙ ap (ite (ℕ_discrete s s') (insert t h (or_empty (lookup s r))))
                  (lookup-with_service s s' r))
            ∙ two_keys s s' t t' (some h) (or_empty (lookup s r)) (or_empty (lookup s' r))
                (λ p. ap (λ k. or_empty (lookup k r)) p),
      )

drop-some :
    (s : ℕ) (x : ℕ × ℕ) (m : Dict ℕ ℕ) (r : HandlerRegistry)
    → drop_service s (x ∷ m) r ≡ insert s (x ∷ m) r
drop-some s x m r =
    let full : (length (x ∷ m) == 0) ≡ false = ground arith in rw (full, drop_service) refl

handlers-drop :
    (s s' : ℕ) (m : Dict ℕ ℕ) (r : HandlerRegistry)
    → or_empty (lookup s' (drop_service s m r)) ≡ ite (ℕ_discrete s s') m (or_empty (lookup s' r))
handlers-drop s s' [] r = ap or_empty (lookup-erase s s' r) ∙ go (ℕ_discrete s s') (lookup s' r)
  where
    go :
        {P : Type 0} (d : Dec P) (o : Option (Dict ℕ ℕ))
        → or_empty (ite d none o) ≡ ite d [] (or_empty o)
    go (yes p) o = refl
    go (no p) o = refl
handlers-drop s s' (x ∷ m) r =
    ap (λ q. or_empty (lookup s' q)) (drop-some s x m r) ∙ handlers-insert s s' (x ∷ m) r

drop_service-IsFilled :
    (s : ℕ) (m : Dict ℕ ℕ) (r : HandlerRegistry) → IsFilled r → IsFilled (drop_service s m r)
drop_service-IsFilled s [] r f k e = ground (arith, f k, lookup-erase s k r)
drop_service-IsFilled s (x ∷ m) r f k e =
    let e' : lookup k (insert s (x ∷ m) r) ≡ some [] =
      sym (ap (lookup k) (drop-some s x m r)) ∙ e in
    ground (arith, f k, lookup-insert s k (x ∷ m) r, e')

-- Unregistering takes away the handler for the types that there is and no other, and leaves no service
-- with an empty map.
pub unregister_handler-handler_of :
    (r : HandlerRegistry) (s t old : ℕ)
    → handler_of r s t ≡ some old
    → IsFilled r
    → ((unregister_handler r s t).1 ≡ none)
      × ((s' t' : ℕ)
          → handler_of (unregister_handler r s t).0 s' t'
            ≡ (if (s == s') && (t == t') then none else handler_of r s' t'))
      × IsFilled (unregister_handler r s t).0
unfolding unregister_handler
unregister_handler-handler_of r s t old e f = elim (Option-cases (lookup s r)) [
  | inl n ↦ absurd (no_handler_of r s t old n e)
  | inr (m, q) ↦
      let here : lookup t m ≡ some old = sym (ap (λ o. lookup t (or_empty o)) q) ∙ e in
      rw (q, here, unregister_handler)
        (
          refl,
          λ s' t'.
              ap (lookup t') (handlers-drop s s' (erase t m) r)
              ∙ two_keys s s' t t' none m (or_empty (lookup s' r))
                  (λ p. sym (ap or_empty q) ∙ ap (λ k. or_empty (lookup k r)) p),
          drop_service-IsFilled s (erase t m) r f,
        )
]
