-- ===== src/Delta/Flash/Bytes.antt =====
-- The bytes of a flash by their addresses: as the flash callbacks of app/src/delta/delta.c read and
-- write them.
use delta_updates_for_embedd.Common.{
  ℕ, zero, suc, ◌+◌, ◌-◌, ◌≤◌, ◌<◌, arith, ◌≡◌, refl, ap, ap₂, ◌∙◌, sym, List, [], ◌∷◌, ◌++◌,
  length, get_or, take, drop,
}
use delta_updates_for_embedd.Detools.Format.{bytes_of}

pub length-bytes_of : (f : ℕ → ℕ) (off n : ℕ) → length (bytes_of f off n) ≡ n
length-bytes_of f off zero = refl
length-bytes_of f off (suc n) = omega (arith, length-bytes_of f (suc off) n)

pub bytes_of_same :
    (f g : ℕ → ℕ) (off n : ℕ)
    → ((a : ℕ) → off ≤ a → a < off + n → f a ≡ g a)
    → bytes_of f off n ≡ bytes_of g off n
bytes_of_same f g off zero h = refl
bytes_of_same f g off (suc n) h =
    ap₂ ◌∷◌ (h off (omega arith) (omega arith))
      (bytes_of_same f g (suc off) n (λ a h1 h2. h a (omega arith) (omega arith)))

pub bytes_of_shift :
    (f g : ℕ → ℕ) (off off' n : ℕ)
    → ((k : ℕ) → k < n → f (off + k) ≡ g (off' + k))
    → bytes_of f off n ≡ bytes_of g off' n
bytes_of_shift f g off off' zero h = refl
bytes_of_shift f g off off' (suc n) h =
    let e : off + 0 ≡ off = omega arith in
    let e' : off' + 0 ≡ off' = omega arith in
    ap₂ ◌∷◌ (ap f (sym e) ∙ h 0 (omega arith) ∙ ap g e') (
      bytes_of_shift f g (suc off) (suc off') n (λ k hk.
        let s : suc off + k ≡ off + suc k = omega arith in
        let s' : off' + suc k ≡ suc off' + k = omega arith in
        ap f s ∙ h (suc k) (omega arith) ∙ ap g s'))

pub bytes_of_written :
    (f : ℕ → ℕ) (off : ℕ) (bytes : List ℕ)
    → ((a : ℕ) → off ≤ a → a < off + length bytes → f a ≡ get_or bytes (a - off) 0)
    → bytes_of f off (length bytes) ≡ bytes
bytes_of_written f off [] h = refl
bytes_of_written f off (b ∷ bytes) h =
    let e : off - off ≡ 0 = omega arith in
    ap₂ ◌∷◌ (h off (omega arith) (omega arith) ∙ ap (λ i. get_or (b ∷ bytes) i 0) e) (
      bytes_of_written f (suc off) bytes (λ a h1 h2.
        let s : a - off ≡ suc (a - suc off) = omega arith in
        h a (omega arith) (omega arith) ∙ ap (λ i. get_or (b ∷ bytes) i 0) s))

pub bytes_of-add :
    (f : ℕ → ℕ) (off n m : ℕ) → bytes_of f off (n + m) ≡ bytes_of f off n ++ bytes_of f (off + n) m
bytes_of-add f off zero m =
    let e : 0 + m ≡ m = omega arith in
    let s : off ≡ off + 0 = omega arith in ap (bytes_of f off) e ∙ ap (λ o. bytes_of f o m) s
bytes_of-add f off (suc n) m =
    let e : suc n + m ≡ suc (n + m) = omega arith in
    let s : suc off + n ≡ off + suc n = omega arith in
    ap (bytes_of f off) e
    ∙ ap (λ xs. f off ∷ xs)
        (bytes_of-add f (suc off) n m ∙ ap (λ o. bytes_of f (suc off) n ++ bytes_of f o m) s)

pub take-bytes_of : (f : ℕ → ℕ) (off n m : ℕ) → n ≤ m → take n (bytes_of f off m) ≡ bytes_of f off n
take-bytes_of f off zero m h = refl
take-bytes_of f off (suc n) zero h = absurd (omega arith)
take-bytes_of f off (suc n) (suc m) h =
    ap (λ xs. f off ∷ xs) (take-bytes_of f (suc off) n m (omega arith))

pub drop-bytes_of :
    (f : ℕ → ℕ) (off n m : ℕ) → n ≤ m → drop n (bytes_of f off m) ≡ bytes_of f (off + n) (m - n)
drop-bytes_of f off zero m h =
    let e : m ≡ m - 0 = omega arith in
    let s : off ≡ off + 0 = omega arith in ap (bytes_of f off) e ∙ ap (λ o. bytes_of f o (m - 0)) s
drop-bytes_of f off (suc n) zero h = absurd (omega arith)
drop-bytes_of f off (suc n) (suc m) h =
    let e : m - n ≡ suc m - suc n = omega arith in
    let s : suc off + n ≡ off + suc n = omega arith in
    drop-bytes_of f (suc off) n m (omega arith) ∙ ap₂ (bytes_of f) s e

-- Bytes that are written behind those that are there and stay.
pub bytes_of_extended :
    (f f' : ℕ → ℕ) (start at at' : ℕ) (bytes : List ℕ)
    → start ≤ at
    → at' ≡ at + length bytes
    → ((a : ℕ) → a < at → f' a ≡ f a)
    → ((a : ℕ) → at ≤ a → a < at + length bytes → f' a ≡ get_or bytes (a - at) 0)
    → bytes_of f' start (at' - start) ≡ bytes_of f start (at - start) ++ bytes
bytes_of_extended f f' start at at' bytes h e kept stored =
    let whole : at' - start ≡ (at - start) + length bytes = omega arith in
    let end : start + (at - start) ≡ at = omega arith in
    ap (bytes_of f' start) whole
    ∙ bytes_of-add f' start (at - start) (length bytes)
    ∙ ap₂ ◌++◌ (bytes_of_same f' f start (at - start) (λ a h1 h2. kept a (omega arith)))
        (ap (λ o. bytes_of f' o (length bytes)) end ∙ bytes_of_written f' at bytes stored)
