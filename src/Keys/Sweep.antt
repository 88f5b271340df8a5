-- ===== src/Keys/Sweep.antt =====
-- The periodic sweep: what it removes, and that no client can tell.
use burner_redis.Prelude.{
  ℕ, suc, ◌+◌, ◌≤◌, ◌≡◌, refl, true, false, none, some, List, [], ◌∷◌, arith, if◌then◌else◌,
}
use burner_redis.Prelude.Key.{among, bytes_key}
use burner_redis.Map
use burner_redis.Map.Laws.{get-remove}
use burner_redis.Value.{Bytes, Instant, is_expired}
use burner_redis.Store.{Data, expired_at}
use burner_redis.Keys.{sweep_scan, sweep_expired, remove_all, sweep_limit}

get-remove_all :
    (ks : List Bytes) (j : Bytes) (m : Data)
    → Map.get j (remove_all ks m) ≡ (if among j ks then none else Map.get j m)
unfolding remove_all
get-remove_all [] j m = refl
get-remove_all (k ∷ ks) j m = ground (arith, get-remove_all ks j (Map.remove k m), get-remove k j m)

-- How many keys have an expiry.
abbrev pub volatile_count : Data → ℕ
volatile_count [] = 0
volatile_count ((k, e) ∷ m) = elim e.expires_at [
  | none ↦ volatile_count m
  | some exp ↦ suc (volatile_count m)
]

no_volatile :
    (now : Instant) (j : Bytes) (m : Data) → volatile_count m ≡ 0 → expired_at now j m ≡ false
unfolding expired_at Map.get is_expired
no_volatile now j [] h = refl
no_volatile now j ((k, e) ∷ m) h = ground (arith, no_volatile now j m)

sweep_scan_complete :
    (now : Instant) (checked : ℕ) (j : Bytes) (m : Data)
    → checked + volatile_count m ≤ sweep_limit
    → expired_at now j m ≡ true
    → among j (sweep_scan now checked m) ≡ true
unfolding sweep_scan expired_at Map.get is_expired
sweep_scan_complete now checked j [] c h = ground arith
sweep_scan_complete now checked j ((k, e) ∷ m) c h = ground (
  arith,
  sweep_scan_complete now checked j m,
  sweep_scan_complete now (checked + 1) j m,
  no_volatile now j m,
)

-- With at most twenty keys that have an expiry, one sweep removes every expired key.
pub sweep_expired_complete :
    (now : Instant) (j : Bytes) (m : Data)
    → volatile_count m ≤ sweep_limit
    → expired_at now j (sweep_expired now m).1 ≡ false
unfolding sweep_expired expired_at
sweep_expired_complete now j m c =
    ground (arith, get-remove_all (sweep_scan now 0 m) j m, sweep_scan_complete now 0 j m)
