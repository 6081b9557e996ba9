-- ===== src/Redis/Lock.antt =====
-- pkg/redis/lock.go: `RedisLock`. The server is the record `Server` over a state of its own, where `none`
-- is an error; a script runs there as one step. When a key expires is the server's matter. A time is a
-- number of milliseconds. A lock that is renewed
-- has a goroutine, here a `Renewer`, which the map knows by its place and which ends once its channel
-- is closed.
pub mod Holding
pub mod Laws
mod Tests
use mmo_server.Common.{
  ℕ, zero, suc, ◌+◌, ◌*◌, ◌/◌, Bool, true, false, ◌&&◌, not, List, [], ◌∷◌, ◌++◌, Option, none,
  some, ite, length, get_elem?, leb, ◌==◌, if◌then◌else◌, Str, Str_discrete, Dict, str_key, lookup,
  insert, erase,
}
use mmo_server.Common.Literals.{utf8}

pub record LockConfig : Type 0 where
  pub default_timeout : ℕ
  pub retry_interval : ℕ
  pub max_retries : ℕ
  pub auto_renew : Bool
  pub renew_interval : ℕ
  pub key_prefix : Str

unfoldable pub default_lock_config : LockConfig
default_lock_config = record {
  default_timeout = 30000;
  retry_interval = 100;
  max_retries = 3;
  auto_renew = true;
  renew_interval = 10000;
  key_prefix = utf8 "lock:";
}

-- The goroutine of a lock that is renewed, with what `lockInfo` has and the
-- timeout that it renews for.
pub record Renewer : Type 0 where
  pub key : Str
  pub token : Str
  pub timeout : ℕ
  pub renewed_for : ℕ
  pub running : Bool

pub record RedisLock : Type 0 where
  pub config : LockConfig
  pub active_locks : Dict Str ℕ
  pub renewers : List Renewer
  pub renewal_stops : List Str

-- The check of the configuration in `NewLock`.
abbrev adjusted : LockConfig → LockConfig
adjusted c =
    if leb (c.default_timeout / 3) c.renew_interval
    then record c { renew_interval = c.default_timeout / 3 }
    else c

unfoldable pub new_lock : LockConfig → RedisLock
new_lock config = record {
  config = adjusted config;
  active_locks = [];
  renewers = [];
  renewal_stops = [];
}

-- `SET NX`, `GET`, `DEL` and `PEXPIRE`, and whether the server refuses to run a script.
pub record Server (S : Type 0) : Type 0 where
  pub set_nx : Str → Str → ℕ → S → S × Option Bool
  pub get : Str → S → Option (Option Str)
  pub del : Str → S → S × ℕ
  pub pexpire : Str → ℕ → S → S × ℕ
  pub script_fails? : S → Bool

-- The value at a place of a list is changed.
unfoldable pub change_at : ℕ → (Renewer → Renewer) → List Renewer → List Renewer
change_at n f [] = []
change_at zero f (r ∷ rs) = f r ∷ rs
change_at (suc n) f (r ∷ rs) = r ∷ change_at n f rs

abbrev pub format_key : RedisLock → Str → Str
format_key l key = l.config.key_prefix ++ key

-- A timeout that is not positive is given as 0.
abbrev pub or_default : RedisLock → ℕ → ℕ
or_default l timeout = if timeout == 0 then l.config.default_timeout else timeout

unfoldable pub start_auto_renew : RedisLock → Str → Str → ℕ → RedisLock
start_auto_renew l key token timeout = record l {
  active_locks = insert key (length l.renewers) l.active_locks;
  renewers =
      l.renewers
      ++ (record {
        key = key;
        token = token;
        timeout = timeout;
        renewed_for = timeout;
        running = true;
      }
          ∷ []);
}

unfoldable pub stop_auto_renew : RedisLock → Str → RedisLock
stop_auto_renew l key = record l { renewal_stops = l.renewal_stops ++ (key ∷ []) }

abbrev stopped : Renewer → Renewer
stopped r = record r { running = false }

-- A turn of `handleStopRenewals`.
unfoldable pub handle_stop : RedisLock → Str → RedisLock
unfolding change_at
handle_stop l key = elim (lookup key l.active_locks) [
  | none ↦ l
  | some n ↦ record l {
    renewers = change_at n stopped l.renewers;
    active_locks = erase key l.active_locks;
  }
]

unfoldable pub handle_stop_renewals : RedisLock → RedisLock
unfolding handle_stop
handle_stop_renewals l = elim l.renewal_stops [
  | [] ↦ l
  | key ∷ keys ↦ handle_stop (record l { renewal_stops = keys }) key
]

pub data Answer : Type 0 where
  yes_answer : Answer
  no_answer : Answer
  failed : Answer

module _ {S : Type 0} (server : Server S) where
  abbrev pub tried : RedisLock → Str → Str → ℕ → S × Option Bool → RedisLock × S × Answer
  tried l key token timeout (s, none) = (l, s, failed)
  tried l key token timeout (s, some false) = (l, s, no_answer)
  tried l key token timeout (s, some true) =
      (if l.config.auto_renew then start_auto_renew l key token timeout else l, s, yes_answer)

  -- `TryAcquire`, with the token that it draws.
  unfoldable pub try_acquire : RedisLock → Option Str → Str → ℕ → S → RedisLock × S × Answer
  unfolding start_auto_renew
  try_acquire l none key timeout s = (l, s, failed)
  try_acquire l (some token) key timeout s =
      tried l key token (or_default l timeout)
        (server.set_nx (format_key l key) token (or_default l timeout) s)

  -- `Acquire` for so many turns of its loop, with the tokens that these draw; `no_answer` is the end of
  -- its context.
  unfoldable pub acquire : List (Option Str) → RedisLock → Str → S → RedisLock × S × Answer
  unfolding try_acquire
  acquire [] l key s = (l, s, no_answer)
  acquire (token ∷ tokens) l key s =
      let (l', s', answer) = try_acquire l token key l.config.default_timeout s in
      let again = acquire tokens l' key s' in
      elim answer [
        | yes_answer ↦ (l', s', yes_answer)
        | failed ↦ (l', s', failed)
        | no_answer ↦ again
      ]

  -- `if redis.call("GET", KEYS[1]) == ARGV[1] then return ... else return 0 end`
  abbrev pub script : Str → Str → (S → S × ℕ) → S → S × Option ℕ
  script key token then_do s =
      if server.script_fails? s then (s, none) else elim (server.get key s) [
        | none ↦ (s, none)
        | some held ↦ elim held [
          | none ↦ (s, some 0)
          | some t ↦ ite (Str_discrete t token) ((then_do s).0, some (then_do s).1) (s, some 0)
        ]
      ]

  abbrev pub released : RedisLock → Str → S × Option ℕ → RedisLock × S × Answer
  released l key (s, none) = (l, s, failed)
  released l key (s, some n) =
      if n == 1
      then (if l.config.auto_renew then stop_auto_renew l key else l, s, yes_answer)
      else (l, s, no_answer)

  -- `Release`
  unfoldable pub release : RedisLock → Str → Str → S → RedisLock × S × Answer
  unfolding stop_auto_renew
  release l key token s =
      released l key (script (format_key l key) token (server.del (format_key l key)) s)

  -- The timeout of the renewer, if it is that of the token.
  abbrev with_timeout : Str → ℕ → Renewer → Renewer
  with_timeout token timeout r = ite (Str_discrete r.token token) (record r { timeout = timeout }) r

  abbrev refreshed_info : RedisLock → Str → Str → ℕ → RedisLock
  refreshed_info l key token timeout = elim (lookup key l.active_locks) [
    | none ↦ l
    | some n ↦ record l { renewers = change_at n (with_timeout token timeout) l.renewers }
  ]

  abbrev pub refreshed : RedisLock → Str → Str → ℕ → S × Option ℕ → RedisLock × S × Answer
  refreshed l key token timeout (s, none) = (l, s, failed)
  refreshed l key token timeout (s, some n) =
      if n == 1
      then (if l.config.auto_renew then refreshed_info l key token timeout else l, s, yes_answer)
      else (l, s, no_answer)

  -- `Refresh`
  unfoldable pub refresh : RedisLock → Str → Str → ℕ → S → RedisLock × S × Answer
  unfolding change_at
  refresh l key token timeout s =
      let timeout' = or_default l timeout in
      refreshed l key token timeout'
        (script (format_key l key) token (server.pexpire (format_key l key) timeout') s)

  -- `IsLocked`, where the empty token asks for any.
  unfoldable pub is_locked : RedisLock → Str → Str → S → Answer
  is_locked l key token s = elim (server.get (format_key l key) s) [
    | none ↦ failed
    | some held ↦ elim held [
      | none ↦ no_answer
      | some t ↦
          if length token == 0 then yes_answer else ite (Str_discrete t token) yes_answer no_answer
    ]
  ]

  abbrev ticked : ℕ → Str → RedisLock × S × Answer → RedisLock × S
  ticked n key (l, s, yes_answer) = (l, s)
  ticked n key (l, s, failed) = (l, s)
  ticked n key (l, s, no_answer) =
      (stop_auto_renew (record l { renewers = change_at n stopped l.renewers }) key, s)

  -- A tick of the goroutine at a place.
  unfoldable pub tick : RedisLock → ℕ → S → RedisLock × S
  unfolding refresh stop_auto_renew
  tick l n s = elim (get_elem? l.renewers n) [
    | none ↦ (l, s)
    | some r ↦
        if r.running then ticked n r.key (refresh l r.key r.token r.renewed_for s) else (l, s)
  ]
