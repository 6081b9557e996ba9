-- ===== src/Redis/Lock/Holding.antt =====
-- What the calls of pkg/redis/lock.go do to a key that is held.
use mmo_server.Common.{
  ℕ, ◌<◌, ◌≡◌, ◌≢◌, ◌⊎◌, inl, inr, Option-cases, arith, Bool, refl, ap, ◌∙◌, true, false, Option,
  none, some, ite, if_pos, if_neg, Str, Str_discrete,
}
use mmo_server.Redis.Lock.{
  refresh, tried, released, refreshed, RedisLock, Server, yes_answer, no_answer, format_key,
  or_default, try_acquire, release, script,
}

-- What the commands of a server do that answers: a key has one value, `SET NX` sets only a key that has
-- none, `DEL` takes away the one that it names, and `PEXPIRE` with a positive time changes no value.
-- While time passes, a key keeps its value or expires.
pub record IsServer {S : Type 0} (server : Server S) : Type 1 where
  pub value : Str → S → Option Str
  pub runs : (s : S) → server.script_fails? s ≡ false
  pub gets : (k : Str) (s : S) → server.get k s ≡ some (value k s)
  pub sets :
      (k t : Str) (ms : ℕ) (s : S)
      → value k s ≡ none
      → ((server.set_nx k t ms s).1 ≡ some true) × (value k (server.set_nx k t ms s).0 ≡ some t)
  pub refuses :
      (k t u : Str) (ms : ℕ) (s : S) → value k s ≡ some u → server.set_nx k t ms s ≡ (s, some false)
  pub deletes :
      (k u : Str) (s : S)
      → value k s ≡ some u
      → ((server.del k s).1 ≡ 1) × (value k (server.del k s).0 ≡ none)
  pub sets_only :
      (k j t : Str) (ms : ℕ) (s : S) → k ≢ j → value j (server.set_nx k t ms s).0 ≡ value j s
  pub deletes_only : (k j : Str) (s : S) → k ≢ j → value j (server.del k s).0 ≡ value j s
  pub prolongs :
      (k j : Str) (ms : ℕ) (s : S) → 0 < ms → value j (server.pexpire k ms s).0 ≡ value j s
  pub Passes : S → S → Type 0
  pub expires : (j : Str) (s s' : S) → Passes s s' → (value j s' ≡ value j s) ⊎ (value j s' ≡ none)

-- What is made of an answer leaves the server as it is.
module _ {S : Type 0} (server : Server S) where
  state-tried :
      (l : RedisLock) (key token : Str) (timeout : ℕ) (r : S × Option Bool)
      → (tried server l key token timeout r).1 ≡ r.0
  state-tried l key token timeout (s, none) = refl
  state-tried l key token timeout (s, some true) = refl
  state-tried l key token timeout (s, some false) = refl

  state-released :
      (l : RedisLock) (key : Str) (r : S × Option ℕ) → (released server l key r).1 ≡ r.0
  state-released l key (s, none) = refl
  state-released l key (s, some n) = ground arith

  state-refreshed :
      (l : RedisLock) (key token : Str) (timeout : ℕ) (r : S × Option ℕ)
      → (refreshed server l key token timeout r).1 ≡ r.0
  state-refreshed l key token timeout (s, none) = refl
  state-refreshed l key token timeout (s, some n) = ground arith

module _ {S : Type 0} (server : Server S) (i : IsServer server) where
  script-held :
      (k token u : Str) (then_do : S → S × ℕ) (s : S)
      → i.value k s ≡ some u
      → script server k token then_do s
        ≡ ite (Str_discrete u token) ((then_do s).0, some (then_do s).1) (s, some 0)
  script-held k token u then_do s h =
      let got : server.get k s ≡ some (some u) = i.gets k s ∙ ap some h in
      rw (script, i.runs s, got) refl

  pub release-other :
      (l : RedisLock) (key token u : Str) (s : S)
      → i.value (format_key l key) s ≡ some u
      → u ≢ token
      → release server l key token s ≡ (l, s, no_answer)
  unfolding release
  release-other l key token u s h n =
      rw
        (
          release,
          script-held (format_key l key) token u (server.del (format_key l key)) s h,
          if_neg (Str_discrete u token) n,
        )
        refl

  pub release-own :
      (l : RedisLock) (key u : Str) (s : S)
      → i.value (format_key l key) s ≡ some u
      → ((release server l key u s).2 ≡ yes_answer)
        × (i.value (format_key l key) (release server l key u s).1 ≡ none)
  unfolding release
  release-own l key u s h =
      let done = i.deletes (format_key l key) u s h in
      rw
        (
          release,
          script-held (format_key l key) u u (server.del (format_key l key)) s h,
          if_pos (Str_discrete u u) refl,
          done.0,
        )
        (refl, done.1)

  pub try_acquire-other :
      (l : RedisLock) (key token u : Str) (timeout : ℕ) (s : S)
      → i.value (format_key l key) s ≡ some u
      → try_acquire server l (some token) key timeout s ≡ (l, s, no_answer)
  unfolding try_acquire
  try_acquire-other l key token u timeout s h =
      rw (try_acquire, i.refuses (format_key l key) token u (or_default l timeout) s h) refl

  -- What may happen once a key is held with a token: any client asks for any lock, releases any with
  -- another token or renews any for a positive time, and time passes in which the key does not expire.
  pub data Held (k token : Str) (start : S) : S → Type 0 where
    stays : Held k token start start
    asks :
        {s : S}
        → Held k token start s
        → (l : RedisLock) (drawn : Option Str) (key : Str) (timeout : ℕ)
        → Held k token start (try_acquire server l drawn key timeout s).1
    releases :
        {s : S}
        → Held k token start s
        → (l : RedisLock) (key other : Str) → token ≢ other
        → Held k token start (release server l key other s).1
    renews :
        {s : S}
        → Held k token start s
        → (l : RedisLock) (key any : Str) (timeout : ℕ) → 0 < or_default l timeout
        → Held k token start (refresh server l key any timeout s).1
    waits :
        {s s' : S}
        → Held k token start s
        → i.Passes s s'
        → i.value k s' ≢ none
        → Held k token start s'

  keeps-try_acquire :
      (l : RedisLock) (drawn : Option Str) (k key u : Str) (timeout : ℕ) (s : S)
      → i.value k s ≡ some u
      → i.value k (try_acquire server l drawn key timeout s).1 ≡ some u
  unfolding try_acquire
  keeps-try_acquire l none k key u timeout s h = h
  keeps-try_acquire l (some t) k key u timeout s h = elim (Str_discrete (format_key l key) k) [
    | yes p ↦
        ap (λ r. i.value k r.1)
          (try_acquire-other l key t u timeout s (ap (λ j. i.value j s) p ∙ h))
        ∙ h
    | no p ↦
        ap (i.value k) (
          state-tried server l key t (or_default l timeout)
            (server.set_nx (format_key l key) t (or_default l timeout) s))
        ∙ i.sets_only (format_key l key) k t (or_default l timeout) s p
        ∙ h
  ]

  keeps-script :
      (k key token : Str) (then_do : S → S × ℕ) (s : S)
      → i.value k (then_do s).0 ≡ i.value k s
      → i.value k (script server key token then_do s).0 ≡ i.value k s
  keeps-script k key token then_do s h = elim (Option-cases (i.value key s)) [
    | inl n ↦
        let got : server.get key s ≡ some none = i.gets key s ∙ ap some n in
        rw (script, i.runs s, got) refl
    | inr (u, e) ↦
        let held = script-held key token u then_do s e in
        elim (Str_discrete u token) [
          | yes p ↦ ap (λ r. i.value k r.0) (held ∙ if_pos (Str_discrete u token) p _ _) ∙ h
          | no p ↦ ap (λ r. i.value k r.0) (held ∙ if_neg (Str_discrete u token) p _ _)
        ]
  ]

  keeps-release :
      (l : RedisLock) (k key other u : Str) (s : S)
      → i.value k s ≡ some u
      → u ≢ other
      → i.value k (release server l key other s).1 ≡ some u
  unfolding release
  keeps-release l k key other u s h n = elim (Str_discrete (format_key l key) k) [
    | yes p ↦
        ap (λ r. i.value k r.1) (release-other l key other u s (ap (λ j. i.value j s) p ∙ h) n) ∙ h
    | no p ↦
        ap (i.value k) (
          state-released server l key
            (script server (format_key l key) other (server.del (format_key l key)) s))
        ∙ keeps-script k (format_key l key) other (server.del (format_key l key)) s
            (i.deletes_only (format_key l key) k s p)
        ∙ h
  ]

  keeps-refresh :
      (l : RedisLock) (k key any : Str) (timeout : ℕ) (s : S)
      → 0 < or_default l timeout
      → i.value k (refresh server l key any timeout s).1 ≡ i.value k s
  unfolding refresh
  keeps-refresh l k key any timeout s pos =
      let ms = or_default l timeout in
      ap (i.value k) (
        state-refreshed server l key any ms
          (script server (format_key l key) any (server.pexpire (format_key l key) ms) s))
      ∙ keeps-script k (format_key l key) any (server.pexpire (format_key l key) ms) s
          (i.prolongs (format_key l key) k ms s pos)

  pub value-Held :
      (k token : Str) (start s : S)
      → i.value k start ≡ some token
      → Held k token start s
      → i.value k s ≡ some token
  value-Held k token start s h stays = h
  value-Held k token start s h (asks r l drawn key timeout) =
      keeps-try_acquire l drawn k key token timeout _ (value-Held k token start _ h r)
  value-Held k token start s h (releases r l key other n) =
      keeps-release l k key other token _ (value-Held k token start _ h r) n
  value-Held k token start s h (renews r l key any timeout pos) =
      keeps-refresh l k key any timeout _ pos ∙ value-Held k token start _ h r
  value-Held k token start s h (waits r p alive) = elim (i.expires k _ _ p) [
    | inl same ↦ same ∙ value-Held k token start _ h r
    | inr gone ↦ absurd (alive gone)
  ]
