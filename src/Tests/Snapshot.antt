-- ===== src/Tests/Snapshot.antt =====
-- The snapshot, on a store with a stream that has a group, a text with an expiry and one that has
-- expired.
use burner_redis.Prelude.{◌≡◌, refl, none, some, [], ◌∷◌}
use burner_redis.Prelude.Key.{bytes_key, bytes_discrete, stream_id_key}
use burner_redis.Map
use burner_redis.Value.{string, stream, is_expired}
use burner_redis.Store.{Data}
use burner_redis.Store.View.{live}
use burner_redis.Snapshot.{from_store, into_runtime, remaining_ms, expiry_of}
use burner_redis.Snapshot.Reload.{Reloads, into_runtime-from_store}
use burner_redis.Tests.Inputs.{permanent, session, missing, five, a}
use burner_redis.Tests.Scores.{ordered_leb, ordered_leb-IsScoreOrder}
use burner_redis.Tests.Streams.{jobs, log}

abbrev saved : Data
saved =
    (jobs, record { value = stream log; expires_at = some 5_000_100 })
    ∷ (session, permanent (string five))
    ∷ (missing, record { value = string five; expires_at = some 4 })
    ∷ []

into_runtime-from_store_example :
    Reloads ordered_leb 3 90
      (live 5 jobs saved)
      (Map.get jobs (into_runtime ordered_leb 90 (from_store 3 5 saved ((a, five) ∷ []))).0)
unfolding Map.get is_expired bytes_discrete
into_runtime-from_store_example =
    into_runtime-from_store ordered_leb ordered_leb-IsScoreOrder 3 5 90 saved ((a, five) ∷ []) jobs
      (refl, (refl, (refl, tt)))
      (
        (
          ((
            refl,
            ((refl, tt), ((refl, tt), ((refl, tt), tt))),
            (refl, tt),
            (((refl, tt), ((refl, tt), tt)), tt),
          )),
          refl,
        ),
        ((tt, refl), ((tt, refl), tt)),
      )

-- An expired key is not saved.
load-expired : Map.get missing (into_runtime ordered_leb 90 (from_store 3 5 saved [])).0 ≡ none
unfolding Map.get is_expired bytes_discrete into_runtime from_store Map.insert
load-expired = refl

-- A key that has less than a millisecond to live has no expiry once it is loaded.
save-last_millisecond : remaining_ms 5 (some 100) ≡ some 0
save-last_millisecond = refl

load-last_millisecond : expiry_of 9 (remaining_ms 5 (some 100)) ≡ none
load-last_millisecond = refl
