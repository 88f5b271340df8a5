-- ===== src/Prelude/Key.antt =====
-- The types that serve as keys of a map: those with a decidable equality.
use Prim.Native.Nat.{ℕ}
use mathlib.Core.Bool.{Bool, true, false, ◌||◌}
use mathlib.Core.List.{List, [], ◌∷◌}
use native.Mathlib.Decide.{ℕ_discrete}

pub record Key {ℓ} (K : Type ℓ) : Type ℓ where
  pub dec : Discrete K

instance abbrev pub nat_key : Key ℕ
nat_key = record { dec = ℕ_discrete }

unfoldable pub bytes_discrete : Discrete (List ℕ)
unfolding ℕ_discrete
bytes_discrete = hlevel ℕ_discrete

unfoldable pub stream_id_discrete : Discrete (ℕ × ℕ)
unfolding ℕ_discrete
stream_id_discrete = hlevel ℕ_discrete

instance abbrev pub bytes_key : Key (List ℕ)
bytes_key = record { dec = bytes_discrete }

instance abbrev pub stream_id_key : Key (ℕ × ℕ)
stream_id_key = record { dec = stream_id_discrete }

-- The test of equality of two keys.
abbrev pub same {ℓ} : {K : Type ℓ} ⦃key : Key K⦄ → K → K → Bool
same ⦃key⦄ a b = elim (key.dec a b) [ yes p ↦ true | no p ↦ false ]

-- Is the key one of these?
abbrev pub among {ℓ} : {K : Type ℓ} ⦃key : Key K⦄ → K → List K → Bool
among k [] = false
among k (j ∷ ks) = same j k || among k ks
