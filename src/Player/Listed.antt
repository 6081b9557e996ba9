-- ===== src/Player/Listed.antt =====
-- The players and the lists of subscribers of pkg/sync/player_state.go.
use mmo_server.Common.{
  ℕ, ◌<◌, ◌≡◌, ◌≢◌, inl, inr, refl, sym, ap, subst, ◌∙◌, Bool, true, false, List, [], Option, none,
  some, ite, if_pos, if_neg, or_empty, Bool-cases, Option-cases, Str, Str_discrete, ℕ_discrete,
  Dict, str_key, lookup, insert, erase, lookup-insert, lookup-erase, arith,
}
use mmo_server.Aoi.{Float}
use mmo_server.Player.{
  PlayerState, PlayerStateManager, contains?, forget, write, register_player, registered,
  unregister_player, unregistered, subscribe_to_player, unsubscribe_from_player,
}
use mmo_server.Player.Laws.{
  IsDistinct, subscribers_of, append-IsDistinct, without-IsDistinct, subscribers-forget, kept,
  lookup-forget,
}

abbrev pub some? : {A : Type 0} → Option A → Bool
some? none = false
some? (some x) = true

erased-some :
    {A : Type 0} (id k : Str) (x : A) (m : Dict Str A)
    → lookup k (erase id m) ≡ some x
    → lookup k m ≡ some x
erased-some id k x m h = ground (arith, lookup-erase id k m)

some?-ite :
    {A B P : Type 0} (d : Dec P) (x o : Option A) (y u : Option B)
    → some? x ≡ some? y
    → some? o ≡ some? u
    → some? (ite d x o) ≡ some? (ite d y u)
some?-ite (yes p) x o y u h k = h
some?-ite (no p) x o y u h k = k

some?-kept : (id : Str) (o : Option (List Str)) → some? (kept id o) ≡ some? o
some?-kept id none = refl
some?-kept id (some subs) = refl

erased-listed :
    {A : Type 0} (id k : Str) (players : Dict Str A) (subs : Dict Str (List Str))
    → some? (lookup k players) ≡ some? (lookup k subs)
    → some? (lookup k (erase id players)) ≡ some? (lookup k (forget id (erase id subs)))
erased-listed id k players subs h =
    ap some? (lookup-erase id k players)
    ∙ some?-ite (Str_discrete id k) none (lookup k players) none (lookup k subs) refl h
    ∙ sym (
        ap some? (lookup-forget id k (erase id subs))
        ∙ some?-kept id (lookup k (erase id subs))
        ∙ ap some? (lookup-erase id k subs))

inserted-listed :
    {A B : Type 0} (id k : Str) (x : A) (y : B) (players : Dict Str A) (subs : Dict Str B)
    → some? (lookup k players) ≡ some? (lookup k subs)
    → some? (lookup k (insert id x players)) ≡ some? (lookup k (insert id y subs))
inserted-listed id k x y players subs h =
    ap some? (lookup-insert id k x players)
    ∙ some?-ite (Str_discrete id k) (some x) (lookup k players) (some y) (lookup k subs) refl h
    ∙ sym (ap some? (lookup-insert id k y subs))

listed-old :
    {A : Type 0} (id k : Str) (x : A) (m : Dict Str A)
    → some? (lookup id m) ≡ true
    → some? (lookup k (insert id x m)) ≡ some? (lookup k m)
listed-old id k x m h = elim (Str_discrete id k) [
  | yes e ↦
      ap some? (lookup-insert id k x m ∙ if_pos (Str_discrete id k) e _ _)
      ∙ sym h
      ∙ ap (λ j. some? (lookup j m)) e
  | no e ↦ ap some? (lookup-insert id k x m ∙ if_neg (Str_discrete id k) e _ _)
]

ite-IsDistinct :
    {P : Type 0} (d : Dec P) (subs : List Str) → IsDistinct subs → IsDistinct (ite d [] subs)
ite-IsDistinct (yes p) subs h = tt
ite-IsDistinct (no p) subs h = h

inserted-IsDistinct :
    (id k : Str) (subs : List Str) (m : Dict Str (List Str))
    → IsDistinct subs
    → IsDistinct (or_empty (lookup k m))
    → IsDistinct (or_empty (lookup k (insert id subs m)))
inserted-IsDistinct id k subs m h o =
    subst (λ x. IsDistinct (or_empty x)) (sym (lookup-insert id k subs m))
      (ite-or (Str_discrete id k))
  where
    ite-or : {P : Type 0} (d : Dec P) → IsDistinct (or_empty (ite d (some subs) (lookup k m)))
    ite-or (yes p) = h
    ite-or (no p) = o

module _ {F V : Type 0} where
  -- Every player is a state of its own with the player's ID; the players are those that have a list of
  -- subscribers, and no list has an ID twice.
  pub record IsListed (m : PlayerStateManager F V) : Type 0 where
    pub named :
        (id : Str) (p : ℕ) → lookup id m.players ≡ some p → ((m.heap p).id ≡ id) × (p < m.fresh)
    pub listed : (id : Str) → some? (lookup id m.players) ≡ some? (lookup id m.subscribers)
    pub distinct : (id : Str) → IsDistinct (subscribers_of m id)

  -- The maps of the players and the subscribers, and the IDs that the states have.
  pub record Same (m m' : PlayerStateManager F V) : Type 0 where
    pub ids : (p : ℕ) → (m'.heap p).id ≡ (m.heap p).id
    pub fresh : m'.fresh ≡ m.fresh
    pub players : m'.players ≡ m.players
    pub subscribers : m'.subscribers ≡ m.subscribers

  pub Same-IsListed : (m m' : PlayerStateManager F V) → Same m m' → IsListed m → IsListed m'
  Same-IsListed m m' s v = record {
    named = λ id p h.
        let old = v.named id p (sym (ap (lookup id) s.players) ∙ h) in
        (s.ids p ∙ old.0, rw s.fresh old.1);
    listed = λ id. rw (s.players, s.subscribers) (v.listed id);
    distinct = λ id. rw s.subscribers (v.distinct id);
  }

  pub write-Same :
      (p : ℕ) (st : PlayerState F V) (m : PlayerStateManager F V)
      → st.id ≡ (m.heap p).id
      → Same m (write p st m)
  unfolding write
  write-Same p st m h = record {
    ids = λ q. elim (ℕ_discrete p q) [
      | yes e ↦
          ap (λ x. x.id) (if_pos (ℕ_discrete p q) e st (m.heap q)) ∙ h ∙ ap (λ r. (m.heap r).id) e
      | no e ↦ ap (λ x. x.id) (if_neg (ℕ_discrete p q) e st (m.heap q))
    ];
    fresh = refl;
    players = refl;
    subscribers = refl;
  }

  unregistered-IsListed :
      (fl : Float F) (m : PlayerStateManager F V) (id : Str) (p : ℕ)
      → IsListed m
      → IsListed (unregistered fl m id p)
  unregistered-IsListed fl m id p v = record {
    named = λ k q h. v.named k q (erased-some id k q m.players h);
    listed = λ k. erased-listed id k m.players m.subscribers (v.listed k);
    distinct = λ k. subst IsDistinct (sym (subscribers-forget id k m.subscribers)) (
        ite-IsDistinct (Str_discrete id k) _
          (without-IsDistinct id (subscribers_of m k) (v.distinct k)));
  }

  registered-IsListed :
      (fl : Float F) (zero : F) (m : PlayerStateManager F V) (id : Str)
      → IsListed m
      → IsListed (registered fl zero m id)
  unfolding write
  registered-IsListed fl zero m id v = record {
    named = λ k q h. elim (Str_discrete id k) [
      | yes e ↦
          let here : some m.fresh ≡ some q =
            sym (lookup-insert id k m.fresh m.players ∙ if_pos (Str_discrete id k) e _ _) ∙ h in
          let same : m.fresh ≡ q = cc in
          (
            ap (λ (x : PlayerState F V). x.id) (if_pos (ℕ_discrete m.fresh q) same _ _) ∙ e,
            omega arith,
          )
      | no e ↦
          let there : lookup k m.players ≡ some q =
            sym (lookup-insert id k m.fresh m.players ∙ if_neg (Str_discrete id k) e _ _) ∙ h in
          let old = v.named k q there in
          let other : m.fresh ≢ q = λ r. absurd (omega (arith, r, old.1)) in
          (
            ap (λ (x : PlayerState F V). x.id) (if_neg (ℕ_discrete m.fresh q) other _ _) ∙ old.0,
            omega (arith, old.1),
          )
    ];
    listed = λ k. inserted-listed id k m.fresh [] m.players m.subscribers (v.listed k);
    distinct = λ k. inserted-IsDistinct id k [] m.subscribers tt (v.distinct k);
  }

  subscribed-IsListed :
      (m : PlayerStateManager F V) (target : Str) (subs : List Str)
      → IsListed m
      → some? (lookup target m.subscribers) ≡ true
      → IsDistinct subs
      → IsListed (record m { subscribers = insert target subs m.subscribers })
  subscribed-IsListed m target subs v h d = record {
    named = v.named;
    listed = λ k. v.listed k ∙ sym (listed-old target k subs m.subscribers h);
    distinct = λ k. inserted-IsDistinct target k subs m.subscribers d (v.distinct k);
  }

  pub register_player-IsListed :
      (fl : Float F) (zero : F) (m : PlayerStateManager F V) (id : Str)
      → IsListed m
      → IsListed (register_player fl zero m id).0
  unfolding register_player
  register_player-IsListed fl zero m id v = elim (Option-cases (lookup id m.players)) [
    | inl e ↦ rw (e, register_player) (registered-IsListed fl zero m id v)
    | inr (p, e) ↦ rw (e, register_player) v
  ]

  pub unregister_player-IsListed :
      (fl : Float F) (m : PlayerStateManager F V) (id : Str)
      → IsListed m
      → IsListed (unregister_player fl m id)
  unfolding unregister_player
  unregister_player-IsListed fl m id v = elim (Option-cases (lookup id m.players)) [
    | inl e ↦ rw (e, unregister_player) v
    | inr (p, e) ↦ rw (e, unregister_player) (unregistered-IsListed fl m id p v)
  ]

  pub subscribe_to_player-IsListed :
      (m : PlayerStateManager F V) (id target : Str)
      → IsListed m
      → IsListed (subscribe_to_player m id target).0
  unfolding subscribe_to_player
  subscribe_to_player-IsListed m id target v = elim (Option-cases (lookup target m.players)) [
    | inl e ↦ rw (e, subscribe_to_player) v
    | inr (p, e) ↦ elim (Bool-cases (contains? id (subscribers_of m target))) [
      | inl c ↦ rw (e, c, subscribe_to_player) v
      | inr c ↦
          rw (e, c, subscribe_to_player)
            (subscribed-IsListed m target _ v (sym (v.listed target) ∙ ap some? e)
              (append-IsDistinct id (subscribers_of m target) c (v.distinct target)))
    ]
  ]

  pub unsubscribe_from_player-IsListed :
      (m : PlayerStateManager F V) (id target : Str)
      → IsListed m
      → IsListed (unsubscribe_from_player m id target).0
  unfolding unsubscribe_from_player
  unsubscribe_from_player-IsListed m id target v =
      elim (Option-cases (lookup target m.subscribers)) [
        | inl e ↦ rw (e, unsubscribe_from_player) v
        | inr (subs, e) ↦
            rw (e, unsubscribe_from_player)
              (subscribed-IsListed m target _ v (ap some? e) (
                without-IsDistinct id subs
                  (subst (λ o. IsDistinct (or_empty o)) e (v.distinct target))))
      ]
