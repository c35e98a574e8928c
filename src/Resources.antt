-- ===== src/Resources.antt =====
-- The connections that a process keeps in a variable: the Redis client of
-- src/aegis_common/redis_util.py, the engine of src/aegis_common/db.py, and the producer of
-- src/aegis_common/kafka.py. Connections are numbered as they are made.
use aegis_project.Prelude.{
  ℕ, suc, ◌==◌, ◌≡◌, refl, ap, ◌∙◌, Bool, true, false, not, Option, none, some, List, [], ◌∷◌, keep,
  arith,
}

-- The variable, the connections that are open, and the number of the next one.
pub record Cached : Type 0 where
  pub current : Option ℕ
  pub alive : List ℕ
  pub next : ℕ

abbrev make : Cached → ℕ × Cached
make c = (c.next, record { current = some c.next; alive = c.next ∷ c.alive; next = suc c.next })

abbrev acquire : Option ℕ → Cached → ℕ × Cached
acquire none c = make c
acquire (some n) c = (n, c)

abbrev release : Option ℕ → Cached → Cached
release none c = c
release (some n) c = record c { current = none; alive = keep (λ m. not (m == n)) c.alive }

-- `get_redis`
unfoldable pub get_redis : Cached → ℕ × Cached
get_redis c = acquire c.current c

-- `close_redis`
unfoldable pub close_redis : Cached → Cached
close_redis c = release c.current c

-- `init_engine`
unfoldable pub init_engine : Cached → ℕ × Cached
init_engine c = acquire c.current c

-- `dispose_engine`
unfoldable pub dispose_engine : Cached → Cached
dispose_engine c = release c.current c

-- The producer: none, made but not started, or started.
pub data Producer : Type 0 where
  absent unstarted started : Producer

-- `KafkaBus.start_producer`, on whether the start succeeds: false where it raises, by which time
-- the variable is set.
unfoldable pub start_producer : Bool → Producer → Bool × Producer
start_producer true absent = (true, started)
start_producer false absent = (false, unstarted)
start_producer starts p = (true, p)

-- `KafkaBus.stop`
unfoldable pub stop : Producer → Producer
stop p = absent

pub data Call : Type 0 where
  opens closes : Call

unfoldable pub redis_calls : List Call → Cached → Cached
unfolding get_redis close_redis
redis_calls [] c = c
redis_calls (opens ∷ calls) c = redis_calls calls (get_redis c).1
redis_calls (closes ∷ calls) c = redis_calls calls (close_redis c)

unfoldable pub start_all : List Bool → Producer → Producer
unfolding start_producer
start_all [] p = p
start_all (b ∷ bs) p = start_all bs (start_producer b p).1

-- The open connections are the one that the variable holds.
abbrev pub HoldsAll : Cached → Type 0
HoldsAll c = c.alive ≡ elim c.current [ none ↦ [] | some n ↦ n ∷ [] ]

acquire-HoldsAll :
    (o : Option ℕ) (c : Cached) → c.current ≡ o → HoldsAll c → HoldsAll (acquire o c).1
acquire-HoldsAll none c e h = ap (λ l. c.next ∷ l) (rw e at h)
acquire-HoldsAll (some n) c e h = h

release-HoldsAll : (o : Option ℕ) (c : Cached) → c.current ≡ o → HoldsAll c → HoldsAll (release o c)
release-HoldsAll none c e h = h
release-HoldsAll (some n) c e h = ap (keep (λ m. not (m == n))) (rw e at h) ∙ ground arith

-- Whatever the order of the calls, at most one client is open, and the variable holds it.
pub redis_calls-HoldsAll :
    (calls : List Call) (c : Cached) → HoldsAll c → HoldsAll (redis_calls calls c)
unfolding redis_calls get_redis close_redis
redis_calls-HoldsAll [] c h = h
redis_calls-HoldsAll (opens ∷ calls) c h =
    redis_calls-HoldsAll calls (get_redis c).1 (acquire-HoldsAll c.current c refl h)
redis_calls-HoldsAll (closes ∷ calls) c h =
    redis_calls-HoldsAll calls (close_redis c) (release-HoldsAll c.current c refl h)

-- After a start that raised, no further start of the same bus starts the producer.
pub start_all-unstarted : (bs : List Bool) → start_all bs unstarted ≡ unstarted
unfolding start_all start_producer
start_all-unstarted [] = refl
start_all-unstarted (true ∷ bs) = start_all-unstarted bs
start_all-unstarted (false ∷ bs) = start_all-unstarted bs
