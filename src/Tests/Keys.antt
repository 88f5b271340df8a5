-- ===== src/Tests/Keys.antt =====
-- The key commands on the small key space.
use burner_redis.Prelude.{◌&&◌, ◌≡◌, refl, arith, some, [], ◌∷◌, false, Bool}
use burner_redis.Prelude.Int.{pos}
use burner_redis.Prelude.Key.{bytes_key, bytes_discrete, among}
use burner_redis.Map
use burner_redis.Value.{new, is_expired, ok}
use burner_redis.Store.{evict, expired_at}
use burner_redis.Store.View.{live}
use burner_redis.Keys.{get, set, delete, exists, keys, ttl, expire, sweep_expired}
use burner_redis.Keys.Strings.{get_lem, get_answer}
use burner_redis.Map.Laws.{is_some}
use burner_redis.Keys.Multi.{keys_lem}
use burner_redis.Keys.Sweep.{sweep_expired_complete}
use burner_redis.Glob.{glob_match, glob_run}
use burner_redis.Glob.Total.{glob_run_total}
use burner_redis.Tests.Inputs.{session, b, m}

program : Unit {0}
unfolding Map.get Map.insert Map.remove get set delete exists keys ttl expire sweep_expired
    bytes_discrete expired_at is_expired new live glob_match
program = tt

get-session : get 5 6 session m ≡ (ok (some b), m)
unfolding program
get-session = refl

ttl-session : (ttl 5 6 session m).0 ≡ pos 0
unfolding program
ttl-session = refl

keys_all : keys 11 (b'*' ∷ []) m ≡ Map.keys (Map.remove session m)
unfolding program
keys_all = refl

sweep_once : (sweep_expired 10 m).0 ≡ 1
unfolding program
sweep_once = refl

get_lem_example : get 10 12 session m ≡ (get_answer (live 10 session m), evict 10 session m)
get_lem_example = get_lem 10 12 session m (omega arith)

keys_lem_example :
    among session (keys 3 (b'*' ∷ []) m)
    ≡ (is_some (live 3 session m) && glob_match (b'*' ∷ []) session)
unfolding program
keys_lem_example = keys_lem 3 (b'*' ∷ []) session m (refl, (refl, (refl, (refl, (refl, tt)))))

sweep_expired_complete_example : expired_at 10 session (sweep_expired 10 m).1 ≡ false
sweep_expired_complete_example = sweep_expired_complete 10 session m (omega arith)

glob_run_total_example : (r : Bool) × (glob_run (b'*' ∷ b'a' ∷ []) (b'b' ∷ b'a' ∷ []) ≡ some r)
glob_run_total_example = glob_run_total (b'*' ∷ b'a' ∷ []) (b'b' ∷ b'a' ∷ [])
