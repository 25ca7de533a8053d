-- ===== src/Detools/Format/Bytes.antt =====
-- The front of the bytes of a segment, and the sums with the source split there.
use delta_updates_for_embedd.Common.{
  ℕ, zero, suc, ◌+◌, ◌%◌, ◌≤◌, ◌<◌, All, arith, ◌≡◌, refl, ap, ap₂, ◌∙◌, sym, List, [], ◌∷◌, ◌++◌,
  length, take, drop, ◌-◌, append_assoc,
}
use delta_updates_for_embedd.Detools.Apply.{add_bytes}
use delta_updates_for_embedd.Detools.Format.{bytes_of, summed}

pub add_bytes-All :
    (to from : List ℕ) → All (λ b. b < 256) to → All (λ b. b < 256) (add_bytes to from)
unfolding add_bytes
add_bytes-All [] from h = tt
add_bytes-All (t ∷ to) [] h = h
add_bytes-All (t ∷ to) (f ∷ from) h = (omega arith, add_bytes-All to from h.1)

pub split_front :
    (out rest bytes behind : List ℕ)
    → out ++ rest ≡ bytes ++ behind
    → length out ≤ length bytes
    → (bytes ≡ out ++ drop (length out) bytes)
      × (rest ≡ drop (length out) bytes ++ behind)
      × (length bytes ≡ length out + length (drop (length out) bytes))
split_front [] rest bytes behind e h = (refl, e, omega arith)
split_front (b ∷ out) rest [] behind e h = absurd (omega arith)
split_front (b ∷ out) rest (b' ∷ bytes) behind e h =
    let same : b ≡ b' = cc in
    let tails : out ++ rest ≡ bytes ++ behind = cc in
    let (front, back, size) = split_front out rest bytes behind tails (omega arith) in
    (ap₂ ◌∷◌ (sym same) front, back, omega (arith, size))

module _ (source : ℕ → ℕ) where
  pub length-summed :
      (bytes : List ℕ) (offset : ℕ) → length (summed source bytes offset) ≡ length bytes
  length-summed [] offset = refl
  length-summed (b ∷ bytes) offset = omega (arith, length-summed bytes (suc offset))

  -- `process_data` adds what it reads of the source.
  pub add_bytes-summed :
      (bytes : List ℕ) (offset : ℕ)
      → add_bytes bytes (bytes_of source offset (length bytes)) ≡ summed source bytes offset
  unfolding add_bytes
  add_bytes-summed [] offset = refl
  add_bytes-summed (b ∷ bytes) offset =
      ap (λ ys. ((b + source offset) % 256) ∷ ys) (add_bytes-summed bytes (suc offset))

  summed-append :
      (out left : List ℕ) (offset : ℕ)
      → summed source (out ++ left) offset
        ≡ summed source out offset ++ summed source left (offset + length out)
  summed-append [] left offset =
      let e : offset ≡ offset + 0 = omega arith in ap (λ o. summed source left o) e
  summed-append (b ∷ out) left offset =
      let e : suc offset + length out ≡ offset + suc (length out) = omega arith in
      ap (λ ys. ((b + source offset) % 256) ∷ ys)
        (summed-append out left (suc offset)
          ∙ ap (λ o. summed source out (suc offset) ++ summed source left o) e)

  -- What is written, and what is left to be written, with the front moved from this to that.
  pub summed_front :
      (out bytes written behind : List ℕ) (offset : ℕ)
      → bytes ≡ out ++ drop (length out) bytes
      → (written ++ summed source out offset)
          ++ (summed source (drop (length out) bytes) (offset + length out) ++ behind)
        ≡ written ++ (summed source bytes offset ++ behind)
  summed_front out bytes written behind offset e =
      let left = drop (length out) bytes in
      let sums : summed source bytes offset
          ≡ summed source out offset ++ summed source left (offset + length out) =
        ap (λ ys. summed source ys offset) e ∙ summed-append out left offset in
      append_assoc written (summed source out offset)
        (summed source left (offset + length out) ++ behind)
      ∙ ap (λ ys. written ++ ys)
          (sym (
              append_assoc (summed source out offset) (summed source left (offset + length out))
                behind)
            ∙ ap (λ ys. ys ++ behind) (sym sums))

pub plain_front :
    (out bytes written behind : List ℕ)
    → bytes ≡ out ++ drop (length out) bytes
    → (written ++ out) ++ (drop (length out) bytes ++ behind) ≡ written ++ (bytes ++ behind)
plain_front out bytes written behind e =
    let left = drop (length out) bytes in
    append_assoc written out (left ++ behind)
    ∙ ap (λ ys. written ++ ys)
        (sym (append_assoc out left behind) ∙ ap (λ ys. ys ++ behind) (sym e))

-- A list that is cut behind its first part.
pub take-append :
    (xs ys : List ℕ) (n : ℕ) → length xs ≤ n → take n (xs ++ ys) ≡ xs ++ take (n - length xs) ys
take-append [] ys n h = ap (λ k. take k ys) (omega arith)
take-append (x ∷ xs) ys zero h = absurd (omega arith)
take-append (x ∷ xs) ys (suc n) h =
    let e : n - length xs ≡ suc n - suc (length xs) = omega arith in
    ap (λ zs. x ∷ zs) (take-append xs ys n (omega arith) ∙ ap (λ k. xs ++ take k ys) e)

pub drop-append :
    (xs ys : List ℕ) (n : ℕ) → length xs ≤ n → drop n (xs ++ ys) ≡ drop (n - length xs) ys
drop-append [] ys n h = ap (λ k. drop k ys) (omega arith)
drop-append (x ∷ xs) ys zero h = absurd (omega arith)
drop-append (x ∷ xs) ys (suc n) h =
    let e : n - length xs ≡ suc n - suc (length xs) = omega arith in
    drop-append xs ys n (omega arith) ∙ ap (λ k. drop k ys) e
