-- ===== src/Streams/Id.antt =====
-- The order of the identifiers of a stream, pairs of a time in milliseconds and a sequence number.
use burner_redis.Prelude.{◌≡◌, Bool, true, false, ◌&&◌, ◌||◌, not, ◌==◌, ltb, arith}
use burner_redis.Prelude.Key.{stream_id_key}
use burner_redis.Value.{StreamId}

abbrev pub id_ltb : StreamId → StreamId → Bool
id_ltb (a, b) (c, d) = ltb a c || (a == c && ltb b d)

abbrev pub id_leb : StreamId → StreamId → Bool
id_leb i j = not (id_ltb j i)

pub id_ltb_trans : (i j k : StreamId) → id_ltb i j ≡ true → id_ltb j k ≡ true → id_ltb i k ≡ true
id_ltb_trans (a, b) (c, d) (e, f) p q = ground arith

pub id_ltb_irrefl : (i : StreamId) → id_ltb i i ≡ false
id_ltb_irrefl (a, b) = ground arith

pub id_leb_ltb_trans :
    (i j k : StreamId) → id_leb i j ≡ true → id_ltb j k ≡ true → id_ltb i k ≡ true
id_leb_ltb_trans (a, b) (c, d) (e, f) p q = ground arith

pub id_ltb_leb_trans :
    (i j k : StreamId) → id_ltb i j ≡ true → id_leb j k ≡ true → id_ltb i k ≡ true
id_ltb_leb_trans (a, b) (c, d) (e, f) p q = ground arith

pub id_antisymm : (i j : StreamId) → id_ltb i j ≡ false → id_ltb j i ≡ false → i ≡ j
id_antisymm (a, b) (c, d) p q = ground arith
