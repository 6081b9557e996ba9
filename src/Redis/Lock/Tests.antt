-- ===== src/Redis/Lock/Tests.antt =====
-- pkg/redis/lock.go over a server that keeps its keys in a list and forgets one at a time as time passes.
use mmo_server.Common.{
  ◌≡◌, ◌≢◌, refl, ◌∙◌, Bool, true, false, [], ◌∷◌, map, Option, none, some, Str, Str_discrete,
  ℕ_discrete, if_pos, if_neg, ◌⊎◌, inl, inr, ap, Option-cases, lookup-insert, arith, str_key, Dict,
  lookup, insert, erase, lookup-erase, lookup-insert_self,
}
use mmo_server.Redis.Lock.{
  RedisLock, Server, Answer, default_lock_config, new_lock, format_key, start_auto_renew,
  stop_auto_renew, change_at, handle_stop, handle_stop_renewals, try_acquire, release, refresh,
  tick,
}
use mmo_server.Redis.Lock.Holding.{IsServer, Held, stays, asks, renews, waits}
use mmo_server.Redis.Lock.Laws.{asked}

program : Unit {0}
unfolding lookup insert erase Str_discrete ℕ_discrete default_lock_config new_lock start_auto_renew
    stop_auto_renew change_at handle_stop handle_stop_renewals try_acquire release refresh tick
program = tt

abbrev set_new : Str → Str → Dict Str Str → Dict Str Str × Option Bool
set_new k t s = elim (lookup k s) [ none ↦ (insert k t s, some true) | some u ↦ (s, some false) ]

abbrev server : Server (Dict Str Str)
server = record {
  set_nx = λ k t ms s. set_new k t s;
  get = λ k s. some (lookup k s);
  del = λ k s. (erase k s, 1);
  pexpire = λ k ms s. (s, 1);
  script_fails? = λ s. false;
}

set_new-other : (k j t : Str) (s : Dict Str Str) → k ≢ j → lookup j (set_new k t s).0 ≡ lookup j s
set_new-other k j t s n = elim (Option-cases (lookup k s)) [
  | inl e ↦ rw (set_new, e) (lookup-insert k j t s ∙ if_neg (Str_discrete k j) n _ _)
  | inr (u, e) ↦ rw (set_new, e) refl
]

after_erase :
    (k j : Str) (s s' : Dict Str Str)
    → s' ≡ erase k s
    → (lookup j s' ≡ lookup j s) ⊎ (lookup j s' ≡ none)
after_erase k j s s' e = elim (Str_discrete k j) [
  | yes p ↦ inr (ap (lookup j) e ∙ lookup-erase k j s ∙ if_pos (Str_discrete k j) p _ _)
  | no p ↦ inl (ap (lookup j) e ∙ lookup-erase k j s ∙ if_neg (Str_discrete k j) p _ _)
]

server-IsServer : IsServer server
server-IsServer = record {
  value = lookup;
  runs = λ s. refl;
  gets = λ k s. refl;
  sets = λ k t ms s h. rw (set_new, h) (refl, lookup-insert_self k t s);
  refuses = λ k t u ms s h. rw (set_new, h) refl;
  deletes =
      λ k u s h. (refl, lookup-erase k k s ∙ if_pos (Str_discrete k k) refl none (lookup k s));
  sets_only = λ k j t ms s n. set_new-other k j t s n;
  deletes_only = λ k j s n. lookup-erase k j s ∙ if_neg (Str_discrete k j) n _ _;
  prolongs = λ k j ms s pos. refl;
  Passes = λ s s'. (k : Str) × (s' ≡ erase k s);
  expires = λ j s s' p. after_erase p.0 j s s' p.1;
}

abbrev nothing : Dict Str Str
nothing = []

abbrev l0 : RedisLock
l0 = new_lock default_lock_config

abbrev door : Str
door = b'd' ∷ []

abbrev t1 : Str
t1 = b'1' ∷ []

abbrev t2 : Str
t2 = b'1' ∷ b'2' ∷ []

abbrev start : Dict Str Str
start = asked server server-IsServer l0 door t1 0 nothing

abbrev renewed : Dict Str Str
renewed = (refresh server l0 door t1 5 (try_acquire server l0 (some t2) door 0 start).1).1

still_there : lookup (format_key l0 door) (erase t2 renewed) ≢ none
unfolding program
still_there e = cc

-- Another client asks for the lock, it is renewed, and another key expires.
run : Held server server-IsServer (format_key l0 door) t1 start (erase t2 renewed)
unfolding server-IsServer
run =
    waits {s = renewed} (renews (asks stays l0 (some t2) door 0) l0 door t1 5 (omega arith))
      (t2, refl) still_there

abbrev l1 : RedisLock
l1 = (try_acquire server l0 (some t1) door 0 nothing).0

-- The first lock has expired, and the same process has acquired it again.
abbrev again : RedisLock × Dict Str Str × Answer
again = try_acquire server l1 (some t2) door 0 nothing

abbrev after_tick : RedisLock
after_tick = handle_stop_renewals (tick server again.0 0 again.1).0

-- The goroutine of the first lock finds that its token is gone, and what it does stops the goroutine
-- of the second.
second_stopped : map (λ r. r.running) after_tick.renewers ≡ false ∷ false ∷ []
unfolding program
second_stopped = refl
