-- ===== src/Detools/Stored/Inflating.antt =====
-- The decoder for examples keeps the laws of an inflating one.
use delta_updates_for_embedd.Common.{
  ℕ, zero, suc, ◌%◌, ◌≡◌, refl, true, ap, List, [], ◌∷◌, ◌++◌, take, drop,
}
use delta_updates_for_embedd.Detools.Decoder.{finish_done}
use delta_updates_for_embedd.Detools.Inflate.{InflateLaws}
use delta_updates_for_embedd.Detools.Stored.{stored, stored-PollLaws, as_bytes, all_sunk}

pub take-as_bytes : (n : ℕ) (xs : List ℕ) → as_bytes (take n xs) ≡ take n (as_bytes xs)
take-as_bytes zero xs = refl
take-as_bytes (suc n) [] = refl
take-as_bytes (suc n) (x ∷ xs) = ap (λ ys. (x % 256) ∷ ys) (take-as_bytes n xs)

pub drop-as_bytes : (n : ℕ) (xs : List ℕ) → as_bytes (drop n xs) ≡ drop n (as_bytes xs)
drop-as_bytes zero xs = refl
drop-as_bytes (suc n) [] = refl
drop-as_bytes (suc n) (x ∷ xs) = drop-as_bytes n xs

pub as_bytes-snoc :
    (xs : List ℕ) (b : ℕ) → as_bytes xs ≡ [] → as_bytes (xs ++ (b ∷ [])) ≡ (b % 256) ∷ []
as_bytes-snoc [] b e = refl
as_bytes-snoc (x ∷ xs) b e = cc

pub all_sunk-nil : (xs : List ℕ) → as_bytes xs ≡ [] → finish_done (all_sunk xs) ≡ true
all_sunk-nil [] e = refl
all_sunk-nil (x ∷ xs) e = cc

abbrev pub stored-InflateLaws : InflateLaws stored
stored-InflateLaws = record {
  polls = stored-PollLaws;
  Core = Unit;
  core = λ s. tt;
  pending = as_bytes;
  initial = tt;
  advance = λ c b. tt;
  yields = λ c b. (b % 256) ∷ [];
  reset_core = λ s. refl;
  reset_pending = λ s. refl;
  poll_ok = λ s n. refl;
  poll_out = λ s n. take-as_bytes n s;
  poll_pending = λ s n. drop-as_bytes n s;
  poll_core = λ s n. refl;
  sink_ok = λ s b e. refl;
  sink_one = λ s b e. refl;
  sink_core = λ s b e. refl;
  sink_pending = λ s b e. as_bytes-snoc s b e;
  finished = all_sunk-nil;
}
