-- ===== src/Tests/Moves.antt =====
-- LMOVE and the scans of the blocking pops, on the small key space.
use burner_redis.Prelude.{◌+◌, ◌≡◌, refl, arith, some, [], ◌∷◌, ite}
use burner_redis.Prelude.Key.{bytes_key, bytes_discrete}
use burner_redis.Map
use burner_redis.Value.{is_expired, ok, err, wrong_type, list, new_list, ValueEntry}
use burner_redis.Store.{expired_at}
use burner_redis.Store.View.{live, live_or}
use burner_redis.Store.Effects.{with_value}
use burner_redis.ListIndex.{left, right}
use burner_redis.Lists.Seq.{pop_end, push_end}
use burner_redis.Lists.Move.{lmove_atomic, poll}
use burner_redis.Lists.View.{kept_list}
use burner_redis.Lists.Transfer.{lmove_lem, lmove_rotates, lmove_wrong_destination}
use burner_redis.Lists.Polling.{poll_lem, offered, first_offer, after_offer}
use burner_redis.Tests.Inputs.{name, queue, missing, a, b, m, s}

program : Unit {0}
unfolding Map.get Map.insert Map.remove bytes_discrete is_expired live expired_at pop_end push_end
    lmove_atomic poll
program = tt

abbrev stored : ValueEntry
stored = record { value = list (a ∷ b ∷ a ∷ []); expires_at = some 100 }

poll-queue : (poll right 3 (missing ∷ queue ∷ name ∷ []) m).0 ≡ ok (some (queue, a))
unfolding program
poll-queue = refl

poll-name : (poll right 3 (missing ∷ name ∷ queue ∷ []) m).0 ≡ err wrong_type
unfolding program
poll-name = refl

lmove_lem_example :
    ((lmove_atomic 3 queue missing right left s).0 ≡ ok (some a))
    × ((lmove_atomic 3 queue missing right left s).1.list_notify ≡ s.list_notify + 1)
    × (live 4 missing (lmove_atomic 3 queue missing right left s).1.data_map
        ≡ ite
            (bytes_discrete missing missing)
            (with_value 4
              (list (push_end left a []))
              (live_or new_list (live 3 missing s.data_map)))
            (ite
              (bytes_discrete queue missing)
              (kept_list 4 (a ∷ b ∷ []) stored)
              (live 4 missing s.data_map)))
unfolding program
lmove_lem_example =
    lmove_lem 3 queue missing right left s stored (a ∷ b ∷ a ∷ []) (a ∷ b ∷ []) a refl refl refl []
      4 missing refl refl (omega arith)

lmove_wrong_destination_example :
    ((lmove_atomic 3 queue name right left s).0 ≡ err wrong_type)
    × ((lmove_atomic 3 queue name right left s).1.list_notify ≡ s.list_notify)
    × (live 4 queue (lmove_atomic 3 queue name right left s).1.data_map ≡ live 4 queue s.data_map)
unfolding program
lmove_wrong_destination_example =
    lmove_wrong_destination 3 queue name right left s stored (a ∷ b ∷ a ∷ []) (a ∷ b ∷ []) a refl
      refl refl 4 queue refl refl (omega arith)

lmove_rotates_example :
    ((lmove_atomic 3 queue queue right left s).0 ≡ ok (some a))
    × ((lmove_atomic 3 queue queue right left s).1.list_notify ≡ s.list_notify + 1)
    × (live 4 queue (lmove_atomic 3 queue queue right left s).1.data_map
        ≡ ite
            (bytes_discrete queue queue)
            (with_value 4 (list (push_end left a (a ∷ b ∷ []))) stored)
            (live 4 queue s.data_map))
unfolding program
lmove_rotates_example =
    lmove_rotates 3 queue right left s stored (a ∷ b ∷ a ∷ []) (a ∷ b ∷ []) a 4 queue refl refl refl
      (omega arith)

poll_lem_example :
    ((poll right 3 (missing ∷ queue ∷ name ∷ []) m).0
      ≡ offered (first_offer right 3 (missing ∷ queue ∷ name ∷ []) m))
    × (live 4 queue (poll right 3 (missing ∷ queue ∷ name ∷ []) m).1
        ≡ after_offer 3 4 queue m (first_offer right 3 (missing ∷ queue ∷ name ∷ []) m))
poll_lem_example = poll_lem right 3 4 queue (missing ∷ queue ∷ name ∷ []) m (omega arith)
