-- ===== src/Detools/Inflate/Supply.antt =====
-- A request of the patch reader of app/src/detools/detools.c against what it can be asked for, from the
-- chunk and from the input behind it.
use delta_updates_for_embedd.Common.{
  ℕ, zero, suc, ◌+◌, ◌≤◌, ◌<◌, arith, ◌≡◌, ◌≢◌, refl, ap, ◌∙◌, sym, ◌⊎◌, inl, inr, true, false,
  Bool-cases, List, [], ◌∷◌, ◌++◌, append_assoc, length, length-append, take, drop, length-take,
  word, sub32, pos, negsuc, eq_ℤ,
}
use delta_updates_for_embedd.Detools.Decoder.{Decoder}
use delta_updates_for_embedd.Detools.Chunk.{Chunk}
use delta_updates_for_embedd.Detools.Reader.{
  Reader, Inflated, Decompressed, decompress_loop, decompress_header, decompress, decompressed,
}
use delta_updates_for_embedd.Detools.Inflate.{
  InflateLaws, inflate, IsNeeded, future, future_body, future_header, IsValid, ValidHeader,
}

pub take-drop : (n : ℕ) (xs : List ℕ) → take n xs ++ drop n xs ≡ xs
take-drop zero xs = refl
take-drop (suc n) [] = refl
take-drop (suc n) (x ∷ xs) = ap (λ ys. x ∷ ys) (take-drop n xs)

-- A poll moves bytes from the pending output behind those that are there already.
moved_bytes :
    (out p rest : List ℕ) (n : ℕ) → (out ++ take n p) ++ (drop n p ++ rest) ≡ out ++ (p ++ rest)
moved_bytes out p rest n =
    append_assoc out (take n p) (drop n p ++ rest)
    ∙ ap (λ ys. out ++ ys)
        (sym (append_assoc (take n p) (drop n p) rest) ∙ ap (λ ys. ys ++ rest) (take-drop n p))

-- A poll that is not filled empties the pending output.
drop_short : (n : ℕ) (xs : List ℕ) → length (take n xs) < n → drop n xs ≡ []
drop_short zero xs h = absurd (omega arith)
drop_short (suc n) [] h = refl
drop_short (suc n) (x ∷ xs) h = drop_short n xs (omega arith)

pub nil_of_length : (xs : List ℕ) → length xs ≡ 0 → xs ≡ []
nil_of_length [] e = refl
nil_of_length (x ∷ xs) e = absurd (omega arith)

module _ {h : Decoder} (l : InflateLaws h) where
  open h use {State, poll, sink}
  open l use {core, pending, advance, yields}

  -- How a loop ends, asked for `size` bytes with `out` there already, in front of `whole`: it has
  -- moved bytes from the front, or the chunk is used up and nothing is pending.
  abbrev pub Supplied : List ℕ → ℕ → List ℕ → Inflated State → Type 0
  Supplied later size whole d =
      ((d.res ≡ pos 0)
        × (1 ≤ d.size)
        × (d.size ≤ size)
        × (length d.out ≡ d.size)
        × (d.out ++ future_body l d.decoder (d.chunk.left ++ later) ≡ whole)
        × IsNeeded l (core d.decoder) (d.chunk.left ++ later))
      ⊎ ((d.res ≡ pos 1)
          × (d.chunk.left ≡ [])
          × (pending d.decoder ≡ [])
          × (inflate l (core d.decoder) later ≡ whole)
          × IsNeeded l (core d.decoder) later)

  -- A poll: it takes no more than it is asked for, from the front; one that is not filled empties the
  -- pending output.
  record Polled (s : State) (n : ℕ) : Type 0 where
    taken : length (poll s n).2 ≤ n
    emptied : length (poll s n).2 < n → pending (poll s n).0 ≡ []
    kept : core (poll s n).0 ≡ core s
    front :
        (out input : List ℕ)
        → (out ++ (poll s n).2) ++ future_body l (poll s n).0 input ≡ out ++ future_body l s input

  poll-Polled : (s : State) (n : ℕ) → Polled s n
  poll-Polled s n = record {
    taken = rw (l.poll_out s n) (omega (arith, length-take n (pending s)));
    emptied = λ h. rw (l.poll_pending s n) (drop_short n (pending s) (rw (l.poll_out s n) at h));
    kept = l.poll_core s n;
    front = λ out input.
        rw (l.poll_out s n, l.poll_pending s n, l.poll_core s n)
          (moved_bytes out (pending s) (inflate l (core s) input) n);
  }

  -- A byte that is sunk where nothing is pending moves from the input to the output.
  sunk_future :
      (s : State) (b : ℕ) (input : List ℕ)
      → pending s ≡ []
      → future_body l (sink s b).0 input ≡ future_body l s (b ∷ input)
  sunk_future s b input e = rw (l.sink_pending s b e, l.sink_core s b e, e) refl

  loop-Supplied :
      (bytes later : List ℕ) (at : ℕ) (s : State) (size left : ℕ) (out : List ℕ)
      → length out + left ≡ size
      → 1 ≤ left
      → size < word
      → IsNeeded l (core s) (bytes ++ later)
      → Supplied later size
          (out ++ future_body l s (bytes ++ later))
          (decompress_loop h bytes at s size left out)
  unfolding decompress_loop
  loop-Supplied [] later at s size left out e h1 h2 v =
      let q = poll-Polled s left in
      let s' = (poll s left).0 in
      ground (
        arith,
        l.poll_ok s left,
        q,
        q.front out later,
        length-append out (poll s left).2,
        nil_of_length (out ++ (poll s left).2),
      )
  loop-Supplied (b ∷ bytes) later at s size left out e h1 h2 v =
      let q = poll-Polled s left in
      let s' = (poll s left).0 in
      let got = (poll s left).2 in
      ground (
        arith,
        l.poll_ok s left,
        q,
        q.front out (b ∷ bytes ++ later),
        length-append out got,
        l.sink_ok s' b,
        l.sink_one s' b,
        l.sink_core s' b,
        sunk_future s' b (bytes ++ later),
        loop-Supplied bytes later (at + 1) (sink s' b).0 size (sub32 left (length got))
            (out ++ got),
      )

  -- How a request for `n` bytes ends, where the reader can still be asked for `whole`: it yields one to
  -- `n` bytes from the front; or the chunk is used up, more input is to come, and the reader can be
  -- asked for the same.
  abbrev pub Served : List ℕ → ℕ → List ℕ → Decompressed State → Type 0
  Served later n whole d =
      ((d.res ≡ pos 0)
        × (1 ≤ d.size)
        × (d.size ≤ n)
        × (length d.out ≡ d.size)
        × (d.out ++ future l d.reader (d.chunk.left ++ later) ≡ whole)
        × IsValid l d.reader (d.chunk.left ++ later))
      ⊎ ((d.res ≡ pos 1)
          × (d.chunk.left ≡ [])
          × (later ≢ [])
          × (future l d.reader later ≡ whole)
          × IsValid l d.reader later)

  -- The reader is behind the header.
  abbrev IsBody : Reader State → Type 0
  IsBody r = eq_ℤ r.window_sz2 (negsuc 0) ≡ false

  later-ne-nil :
      (s : State) (later whole : List ℕ)
      → whole ≢ []
      → inflate l (core s) later ≡ whole
      → later ≢ []
  later-ne-nil s [] whole ne e = absurd (ne (sym e))
  later-ne-nil s (b ∷ later) whole ne e = λ q. cc

  body-Served :
      (r : Reader State) (left later : List ℕ) (at n : ℕ) (d : Decompressed State)
      → IsBody r
      → 1 ≤ n
      → n < word
      → future_body l r.decoder (left ++ later) ≢ []
      → IsNeeded l (core r.decoder) (left ++ later)
      → d ≡ decompressed h r (decompress_loop h left at r.decoder n n [])
      → Served later n (future_body l r.decoder (left ++ later)) d
  body-Served r left later at n d body h1 h2 ne v e =
      let i = decompress_loop h left at r.decoder n n [] in
      ground (
        arith,
        loop-Supplied left later at r.decoder n n [] (omega arith) h1 h2 v,
        later-ne-nil i.decoder later (future_body l r.decoder (left ++ later)) ne,
      )

  header-Served :
      (r : Reader State) (left later : List ℕ) (at n : ℕ)
      → eq_ℤ r.window_sz2 (negsuc 0) ≡ true
      → 1 ≤ n
      → n < word
      → ValidHeader l r.decoder (left ++ later)
      → Served later n (future_header l r.decoder (left ++ later)) (decompress_header h r left at n)
  unfolding decompress_header
  header-Served r [] [] at n e h1 h2 v = absurd v
  header-Served r [] (b ∷ later) at n e h1 h2 v = ground arith
  header-Served r (b ∷ left) later at n e h1 h2 v =
      let r' = record r { window_sz2 = pos 8; lookahead_sz2 = pos 7 } in
      let i = decompress_loop h left (at + 1) r.decoder n n [] in
      let whole = future_body l r.decoder (left ++ later) in
      rw v.0 (
        body-Served r' left later (at + 1) n (decompressed h r' i) refl h1 h2 (rw v.1 v.2) v.3 refl)

  -- For a decoder that keeps the laws of an inflating one, and a reader in front of input that is as it
  -- wants it, of which it can still be asked for something: a request for 1 to 2 ^ 32 - 1 bytes returns 0
  -- with one byte or more, no more than it asks for, from the front of what the chunk and the input
  -- behind it hold together, and the rest can still be asked for; or it returns 1, the chunk is used up,
  -- more input is to come, and the reader can still be asked for the same.
  pub decompress-Served :
      (r : Reader State) (c : Chunk) (later : List ℕ) (n : ℕ)
      → 1 ≤ n
      → n < word
      → IsValid l r (c.left ++ later)
      → future l r (c.left ++ later) ≢ []
      → Served later n (future l r (c.left ++ later)) (decompress h r c n)
  unfolding decompress
  decompress-Served r c later n h1 h2 v ne = elim (Bool-cases (eq_ℤ r.window_sz2 (negsuc 0))) [
    | inl head ↦ rw head (header-Served r c.left later c.offset n head h1 h2 (rw head at v))
    | inr body ↦ rw body (
        body-Served r c.left later c.offset n
          (decompressed h r (decompress_loop h c.left c.offset r.decoder n n [])) body h1 h2
          (rw body at ne) (rw body at v) refl)
  ]
