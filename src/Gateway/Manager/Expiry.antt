-- ===== src/Gateway/Manager/Expiry.antt =====
-- `checkHeartbeats` and `Stop` of pkg/gateway/session.go: which sessions go, and which stay.
use mmo_server.Common.{
  ℕ, ◌≡◌, ◌≢◌, inl, inr, refl, sym, ap, subst, ◌∙◌, Bool, true, false, List, [], ◌∷◌, Option, none,
  some, ite, if_neg, if◌then◌else◌, Str, Str_discrete, Dict, str_key, lookup, IsMap, lookup-erase,
  Option-cases, arith,
}
use mmo_server.Gateway.Session.{Session}
use mmo_server.Gateway.Manager.{
  Heap, store, SessionManager, remove_session, IsExpired?, expired, remove_each, check_heartbeats,
}
use mmo_server.Gateway.Manager.Laws.{IsValid, remove_session-IsValid}

-- The session that is stored under an ID.
unfoldable pub view : SessionManager → Str → Option Session
view sm id = elim (lookup id sm.sessions) [ none ↦ none | some p ↦ some (sm.heap p) ]

unfoldable listed : Str → List Str → Bool
listed id [] = false
listed id (j ∷ ids) = ite (Str_discrete j id) true (listed id ids)

view-remove_session :
    (sm : SessionManager) (id j : Str)
    → IsValid sm
    → view (remove_session sm id).0 j ≡ ite (Str_discrete id j) none (view sm j)
unfolding remove_session store view
view-remove_session sm id j v = elim (Option-cases (lookup id sm.sessions)) [
  | inl n ↦ rw (n, remove_session) (ground arith)
  | inr (p, s) ↦
      rw (s, remove_session)
        (elim (Option-cases (lookup j sm.sessions)) [
          | inl n ↦ ground (arith, lookup-erase id j sm.sessions)
          | inr (q, t) ↦
              ground (arith, lookup-erase id j sm.sessions, v.named id p s, v.named j q t)
        ])
]

remove_each-IsValid :
    (sm : SessionManager) (ids : List Str) → IsValid sm → IsValid (remove_each sm ids)
unfolding remove_each
remove_each-IsValid sm [] v = v
remove_each-IsValid sm (id ∷ ids) v =
    remove_each-IsValid (remove_session sm id).0 ids (remove_session-IsValid sm id v)

view-remove_each :
    (sm : SessionManager) (ids : List Str) (j : Str)
    → IsValid sm
    → view (remove_each sm ids) j ≡ (if listed j ids then none else view sm j)
unfolding remove_each listed
view-remove_each sm [] j v = refl
view-remove_each sm (id ∷ ids) j v =
    view-remove_each (remove_session sm id).0 ids j (remove_session-IsValid sm id v)
    ∙ ground (arith, view-remove_session sm id j v)

-- A session that is stored no more is left alone.
heap-remove_each :
    (sm : SessionManager) (ids : List Str) (p : ℕ)
    → IsValid sm
    → lookup (sm.heap p).id sm.sessions ≡ none
    → (remove_each sm ids).heap p ≡ sm.heap p
unfolding remove_each
heap-remove_each sm [] p v h = refl
heap-remove_each sm (id ∷ ids) p v h =
    let same : (remove_session sm id).0.heap p ≡ sm.heap p =
      unfold remove_session store in
      (elim (Option-cases (lookup id sm.sessions)) [
        | inl n ↦ rw (n, remove_session) refl
        | inr (q, s) ↦ rw (s, remove_session) (ground (arith, v.named id q s))
      ]) in
    let still : lookup (sm.heap p).id (remove_session sm id).0.sessions ≡ none =
      unfold remove_session in
      (elim (Option-cases (lookup id sm.sessions)) [
        | inl n ↦ rw (n, remove_session) h
        | inr (q, s) ↦
            rw (s, remove_session) (ground (arith, lookup-erase id (sm.heap p).id sm.sessions))
      ]) in
    heap-remove_each (remove_session sm id).0 ids p (remove_session-IsValid sm id v)
      (subst (λ x. lookup x.id (remove_session sm id).0.sessions ≡ none) (sym same) still)
    ∙ same

removed :
    (sm : SessionManager) (id : Str) (p : ℕ)
    → lookup id sm.sessions ≡ some p
    → (lookup id (remove_session sm id).0.sessions ≡ none)
      × ((remove_session sm id).0.heap p ≡ record (sm.heap p) { closed = true })
unfolding remove_session store
removed sm id p e =
    rw (e, remove_session) (ground (arith, lookup-erase id id sm.sessions), ground arith)

kept :
    (sm : SessionManager) (j id : Str) (p : ℕ)
    → IsValid sm
    → j ≢ id
    → lookup id sm.sessions ≡ some p
    → (lookup id (remove_session sm j).0.sessions ≡ some p)
      × ((remove_session sm j).0.heap p ≡ sm.heap p)
unfolding remove_session store
kept sm j id p v ne e = elim (Option-cases (lookup j sm.sessions)) [
  | inl n ↦ rw (n, remove_session) (e, refl)
  | inr (q, s) ↦
      rw (s, remove_session)
        (
          ground (arith, lookup-erase j id sm.sessions),
          ground (arith, v.named j q s, v.named id p e),
        )
]

abbrev marked : Session → Session
marked x = record x { closed = true }

closed-remove_each :
    (sm : SessionManager) (ids : List Str) (id : Str) (p : ℕ)
    → IsValid sm
    → lookup id sm.sessions ≡ some p
    → listed id ids ≡ true
    → (remove_each sm ids).heap p ≡ record (sm.heap p) { closed = true }
unfolding remove_each listed
closed-remove_each sm [] id p v e h = absurd (cc)
closed-remove_each sm (j ∷ ids) id p v e h = elim (Str_discrete j id) [
  | yes same ↦
      let e' : lookup j sm.sessions ≡ some p =
        subst (λ k. lookup k sm.sessions ≡ some p) (sym same) e in
      let (gone, shut) = removed sm j p e' in
      let named : ((remove_session sm j).0.heap p).id ≡ j =
        ap (λ x. x.id) shut ∙ (v.named j p e').0 in
      heap-remove_each (remove_session sm j).0 ids p (remove_session-IsValid sm j v)
        (subst (λ k. lookup k (remove_session sm j).0.sessions ≡ none) (sym named) gone)
      ∙ shut
  | no ne ↦
      let (still, alone) = kept sm j id p v ne e in
      closed-remove_each (remove_session sm j).0 ids id p (remove_session-IsValid sm j v) still
        (rw (if_neg (Str_discrete j id) ne) at h)
      ∙ ap (λ (x : Session). marked x) alone
]

listed-expired :
    (now ttl : ℕ) (heap : Heap) (m : Dict Str ℕ) (id : Str)
    → IsMap m
    → listed id (expired now ttl heap m)
      ≡ elim (lookup id m) [ none ↦ false | some p ↦ IsExpired? now ttl (heap p) ]
unfolding listed expired lookup
listed-expired now ttl heap [] id d = refl
listed-expired now ttl heap ((j, p) ∷ m) id d =
    ground (arith, listed-expired now ttl heap m id d.1, d.0)

-- What a heartbeat check leaves of a session.
abbrev pub unless_expired : ℕ → ℕ → Option Session → Option Session
unless_expired now ttl none = none
unless_expired now ttl (some x) = if IsExpired? now ttl x then none else some x

-- On a valid manager, `checkHeartbeats` removes exactly the sessions whose last activity is longer
-- ago than the TTL, and leaves the others as they are. A session that it removes is marked closed,
-- and nothing else of it changes, its connections included. The manager stays valid.
pub check_heartbeats-view :
    (sm : SessionManager) (now : ℕ)
    → IsValid sm
    → IsValid (check_heartbeats sm now)
      × ((id : Str)
          → view (check_heartbeats sm now) id ≡ unless_expired now sm.heartbeat_ttl (view sm id))
      × ((id : Str) (p : ℕ)
          → lookup id sm.sessions ≡ some p
          → IsExpired? now sm.heartbeat_ttl (sm.heap p) ≡ true
          → (check_heartbeats sm now).heap p ≡ record (sm.heap p) { closed = true })
unfolding check_heartbeats
check_heartbeats-view sm now v =
    let ids = expired now sm.heartbeat_ttl sm.heap sm.sessions in
    let old = λ (id : Str). listed-expired now sm.heartbeat_ttl sm.heap sm.sessions id v.ids_map in
    (
      remove_each-IsValid sm ids v,
      λ id. view-remove_each sm ids id v ∙ unfold view in ground (arith, old id),
      λ id p e h. closed-remove_each sm ids id p v e (ground (arith, old id)),
    )
