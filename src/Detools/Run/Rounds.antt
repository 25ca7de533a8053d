-- ===== src/Detools/Run/Rounds.antt =====
-- `detools_apply_patch_callbacks` ends: a round for every chunk, and fuel for what the chunks yield.
use delta_updates_for_embedd.Common.{
  ℕ, zero, suc, ◌+◌, ◌-◌, ◌*◌, ◌≤◌, ◌<◌, arith, ◌≡◌, ◌≢◌, refl, ◌⊎◌,
}
use delta_updates_for_embedd.Common.{inl, inr, true, false, min, word, length, add32, ◌∙◌, ap}
use delta_updates_for_embedd.Common.{ℤ, pos, is_zero, ltb, ◌&&◌, Bool-cases, List, [], Option}
use delta_updates_for_embedd.Common.{none, some}
use delta_updates_for_embedd.Detools.Decoder.{Decoder, PollLaws, FiniteOutput}
use delta_updates_for_embedd.Detools.Chunk.{chunk_at}
use delta_updates_for_embedd.Detools.Apply.{ApplyPatch, Callbacks, Stepped, stepped}
use delta_updates_for_embedd.Detools.Apply.Progress.{budget, mul_mono, busy, busy-le}
use delta_updates_for_embedd.Detools.Run.{
  process_loop, load_chunk, process, callbacks_loop, callbacks_process, apply_patch_callbacks,
  apply_patch_init, with_result, more_wanted,
}
use delta_updates_for_embedd.Detools.Run.Chain.{and_then-ne-none, and_then-inv}
use delta_updates_for_embedd.Detools.Run.Ends.{
  process_loop-budget, process-ne-none, finalize-ne-none,
}

some-ne-none : {X : Type 0} (x : X) → some x ≢ none
some-ne-none x e = cc

pub mul_add : (g x z : ℕ) → g * (x + z) ≡ g * x + g * z
mul_add g x z = omega arith

split_gain : (g x y : ℕ) → x ≤ y → g * y ≡ g * x + g * (y - x)
split_gain g x y h =
    let e : y ≡ x + (y - x) = omega arith in ap (λ (t : ℕ). g * t) e ∙ mul_add g x (y - x)

pub loaded_measure :
    (b o m x y g fuel : ℕ)
    → m ≤ b + x
    → b ≤ o
    → y ≤ 1
    → o + x ≤ g
    → 2 * g + 2 ≤ fuel
    → 2 * m + y < fuel
loaded_measure b o m x y g fuel e1 e2 e3 e4 e5 = omega arith

pub loaded_budget : (m b x g off k : ℕ) → m ≤ b + x → b ≤ g * off → x ≤ g * k → m ≤ g * (off + k)
loaded_budget m b x g off k e1 e2 e3 = omega (arith, mul_add g off k)

module _ (h : Decoder) (f : FiniteOutput h) (l : PollLaws h) {A : Type 0} (cb : Callbacks A) where
  open h use {State}

  -- What the machine can still read when its chunk is taken away.
  abbrev pub reserve : ApplyPatch State → ℕ
  reserve self = budget h f (record self { chunk = chunk_at [] 0 })

  pub reserve_of_budget : (self : ApplyPatch State) {n : ℕ} → budget h f self ≤ n → reserve self ≤ n
  reserve_of_budget self e = ground arith

  pub load_chunk-budget :
      (self : ApplyPatch State) (patch : List ℕ) (size : ℕ)
      → budget h f (load_chunk h cb self patch size) ≤ reserve self + f.gain * length patch
  load_chunk-budget self patch size = ground arith

  with_result-inv :
      (o : Option (Stepped State A)) (t : Stepped State A)
      → with_result h cb (more_wanted h cb) o ≡ some t
      → (u : Stepped State A) × (o ≡ some u) × (budget h f t.self ≡ budget h f u.self)
  with_result-inv none t e = cc
  with_result-inv (some u) t e = (u, refl, ground arith)

  pub process-budget :
      (fuel : ℕ) (self : ApplyPatch State) (arg : A) (patch : List ℕ) (size : ℕ)
      (t : Stepped State A)
      → process h cb fuel self arg patch size ≡ some t
      → budget h f t.self ≤ reserve self + f.gain * length patch
  unfolding process
  process-budget fuel self arg patch size t e =
      let (u, eu, same) = with_result-inv (process_loop h cb fuel loaded arg (pos 0)) t e in
      omega (
        arith,
        same,
        load_chunk-budget self patch size,
        process_loop-budget h f l cb fuel loaded arg (pos 0) u eu,
      )
    where
      loaded : ApplyPatch State
      loaded = load_chunk h cb self patch size

  -- What a loop over the chunks needs: the bytes that a read gives fit the buffer, and the fuel is
  -- enough for all that `size` bytes of patch can yield.
  module _ (reads : (a : A) (n : ℕ) → length (cb.patch_read a n).2 ≤ n) (fuel size : ℕ)
      (enough : 2 * (f.gain * size) + 2 ≤ fuel) (fits : size < word) where
    -- One round from offset `off`: its loop ends, and it adds what it read to the budget at most.
    module _ (self : ApplyPatch State) (arg : A) (off : ℕ) (b : reserve self ≤ f.gain * off) where
      open cb use {patch_read}

      abbrev k : ℕ
      k = min (size - off) 512

      abbrev next : Option (Stepped State A)
      next = process h cb fuel self (patch_read arg k).0 (patch_read arg k).2 k

      -- The bytes that were read add this much at most.
      read_gain :
          off < size
          → (f.gain * length (patch_read arg k).2 ≤ f.gain * k)
            × (f.gain * off + f.gain * k ≤ f.gain * size)
            × (add32 off k ≡ off + k)
      read_gain lt = (
        mul_mono f.gain (length (patch_read arg k).2) k (reads arg k),
        omega (
          arith,
          split_gain f.gain off size (omega arith),
          mul_mono f.gain k (size - off) (omega arith),
        ),
        omega arith,
      )

      round-ne-none : off < size → next ≢ none
      round-ne-none lt =
          process-ne-none h f l cb fuel self (patch_read arg k).0 (patch_read arg k).2 k (
            loaded_measure (reserve self) (f.gain * off) _ _ (busy h f self.state) _ fuel
              (load_chunk-budget self (patch_read arg k).2 k) b (busy-le h f self.state)
              (omega (arith, read_gain lt)) enough)

      round-budget :
          (t : Stepped State A) → off < size → next ≡ some t → reserve t.self ≤ f.gain * add32 off k
      round-budget t lt e = rw (read_gain lt).2 (
          loaded_budget (reserve t.self) (reserve self) _ f.gain off k
            (reserve_of_budget t.self
              (process-budget fuel self (patch_read arg k).0 (patch_read arg k).2 k t e))
            b (read_gain lt).0)

    loop_cases :
        (off : ℕ) (res : ℤ)
        → ((ltb off size && is_zero res ≡ true) × (off < size))
          ⊎ (ltb off size && is_zero res ≡ false)
    loop_cases off res = ground arith

    -- The loop ends in the rounds that the chunks of 512 bytes need.
    callbacks_loop-ne-none :
        (n : ℕ) (self : ApplyPatch State) (arg : A) (off : ℕ) (res : ℤ)
        → off ≤ size
        → size ≤ off + 512 * n
        → reserve self ≤ f.gain * off
        → callbacks_loop h cb n fuel self arg off size res ≢ none
    unfolding callbacks_loop
    callbacks_loop-ne-none zero self arg off res le hn b = ground arith
    callbacks_loop-ne-none (suc n) self arg off res le hn b = elim (loop_cases off res) [
      | inr stop ↦ rw stop (some-ne-none (stepped self arg res))
      | inl (go, lt) ↦ elim (Bool-cases (is_zero (cb.patch_read arg (min (size - off) 512)).1)) [
        | inr bad ↦ rw (go, bad) (some-ne-none _)
        | inl good ↦
            rw (go, good)
              (and_then-ne-none h cb _ _ (round-ne-none self arg off b lt) (λ t e.
                callbacks_loop-ne-none n t.self t.arg (add32 off (k self arg off b)) t.res
                  (omega arith) (omega arith) (round-budget self arg off b t lt e)))
      ]
    ]

    stopped_budget :
        (u t : Stepped State A) (off : ℕ)
        → off ≤ size
        → reserve u.self ≤ f.gain * off
        → some u ≡ some t
        → reserve t.self ≤ f.gain * size
    stopped_budget u t off le b e = ground (arith, mul_mono f.gain off size)

    callbacks_loop-budget :
        (n : ℕ) (self : ApplyPatch State) (arg : A) (off : ℕ) (res : ℤ) (t : Stepped State A)
        → off ≤ size
        → reserve self ≤ f.gain * off
        → callbacks_loop h cb n fuel self arg off size res ≡ some t
        → reserve t.self ≤ f.gain * size
    unfolding callbacks_loop
    callbacks_loop-budget zero self arg off res t le b e = ground (arith, mul_mono f.gain off size)
    callbacks_loop-budget (suc n) self arg off res t le b e = elim (loop_cases off res) [
      | inr stop ↦ stopped_budget (stepped self arg res) t off le b (rw stop at e)
      | inl (go, lt) ↦ elim (Bool-cases (is_zero (cb.patch_read arg (min (size - off) 512)).1)) [
        | inr bad ↦ stopped_budget _ t off le b (rw (go, bad) at e)
        | inl good ↦
            let (u, eu, rest) = and_then-inv h cb _ _ t (rw (go, good) at e) in
            callbacks_loop-budget n u.self u.arg (add32 off (k self arg off b)) u.res t
              (omega arith) (round-budget self arg off b u lt eu) rest
      ]
    ]

    -- `callbacks_process` ends, from a machine that has read nothing.
    callbacks_process-ne-none :
        (rounds : ℕ) (self : ApplyPatch State) (arg : A)
        → size ≤ 512 * rounds
        → reserve self ≤ 0
        → callbacks_process h cb rounds fuel self arg size ≢ none
    unfolding callbacks_process
    callbacks_process-ne-none rounds self arg e b =
        and_then-ne-none h cb _ _
          (callbacks_loop-ne-none rounds self arg 0 (pos 0) (omega arith) (omega arith)
            (omega (arith, b)))
          (λ t et.
            and_then-ne-none h cb _ _
              (finalize-ne-none h f l cb fuel t.self t.arg (
                omega (
                  arith,
                  callbacks_loop-budget rounds self arg 0 (pos 0) t (omega arith) (omega (arith, b))
                      et,
                  busy-le h f t.self.state,
                )))
              (λ u eu. some-ne-none _))

-- For a decoder that keeps its promises and holds finitely many bytes of output, and a read of the
-- patch that gives no more bytes than it is asked for: `detools_apply_patch_callbacks` ends on
-- every patch of less than 2 ^ 32 bytes, whatever it holds. With a round for every 512 bytes and
-- fuel for all that the patch can yield, twice, no loop of it runs out.
pub apply_patch_callbacks-ne-none :
    (h : Decoder) (f : FiniteOutput h) (l : PollLaws h) {A : Type 0} (cb : Callbacks A)
    (rounds fuel : ℕ) (memory : ApplyPatch h.State) (patch_size : ℕ) (arg : A)
    → ((a : A) (n : ℕ) → length (cb.patch_read a n).2 ≤ n)
    → patch_size < word
    → patch_size ≤ 512 * rounds
    → 2 * (f.gain * patch_size) + 2 ≤ fuel
    → apply_patch_callbacks h cb rounds fuel memory patch_size arg ≢ none
unfolding apply_patch_callbacks apply_patch_init
apply_patch_callbacks-ne-none h f l cb rounds fuel memory patch_size arg reads fits e enough =
    callbacks_process-ne-none h f l cb reads fuel patch_size enough fits rounds
      (apply_patch_init memory patch_size) arg e (omega arith)
