-- ===== src/Protocol/Framing/Stream.antt =====
-- `_read_exactly` against the byte stream behind a socket, however the bytes are cut into chunks.
use sandstorm_ios_driver.Prelude.{
  ℕ, zero, suc, ◌+◌, ◌-◌, ◌≤◌, ◌<◌, min, ◌≡◌, refl, ap, List, [], ◌∷◌, ◌++◌, append-nil,
  append_assoc, arith, length, take, drop, length-take, length-drop, length-append,
}
use sandstorm_ios_driver.Python.Exception.{
  Except, ok, err, IosError, ios, agent_connection_error, bind,
}
use sandstorm_ios_driver.Protocol.Framing.{
  Arrival, chunk, silence, failure, put_back, recv, checked_chunk, next_chunk, read_loop,
  read_exactly,
}

-- The bytes that will be read before the peer closes, stays silent or fails.
unfoldable pub pending : List Arrival → List ℕ
pending [] = []
pending (chunk [] ∷ arrivals) = []
pending (chunk (b ∷ bs) ∷ arrivals) = (b ∷ bs) ++ pending arrivals
pending (silence ∷ arrivals) = []
pending (failure ∷ arrivals) = []

pub pending-put_back :
    (bs : List ℕ) (arrivals : List Arrival)
    → pending (put_back bs arrivals) ≡ bs ++ pending arrivals
unfolding pending put_back
pending-put_back [] arrivals = refl
pending-put_back (b ∷ bs) arrivals = refl

-- A read of `r` bytes is a read of the first `k` and one of the others.
take_in_two :
    (k r : ℕ) (xs ys : List ℕ)
    → k ≤ r
    → take k xs ++ take (r - length (take k xs)) (drop k xs ++ ys) ≡ take r (xs ++ ys)
take_in_two zero r xs ys h = ap (λ n. take n (xs ++ ys)) (omega arith)
take_in_two (suc k) zero xs ys h = absurd (omega arith)
take_in_two (suc k) (suc r) [] ys h = ap (λ n. take n ys) {y = suc r} (omega arith)
take_in_two (suc k) (suc r) (x ∷ xs) ys h =
    let e : suc r - suc (length (take k xs)) ≡ r - length (take k xs) = omega arith in
    ap (λ l. x ∷ l) (rw e (take_in_two k r xs ys (omega arith)))

drop_in_two :
    (k r : ℕ) (xs ys : List ℕ)
    → k ≤ r
    → drop (r - length (take k xs)) (drop k xs ++ ys) ≡ drop r (xs ++ ys)
drop_in_two zero r xs ys h = ap (λ n. drop n (xs ++ ys)) (omega arith)
drop_in_two (suc k) zero xs ys h = absurd (omega arith)
drop_in_two (suc k) (suc r) [] ys h = ap (λ n. drop n ys) {y = suc r} (omega arith)
drop_in_two (suc k) (suc r) (x ∷ xs) ys h = ground (arith, drop_in_two k r xs ys)

chunk_bound :
    (k : ℕ) (xs ys : List ℕ) → length (drop k xs ++ ys) + length (take k xs) ≡ length (xs ++ ys)
chunk_bound k xs ys =
    omega
      (arith, length-append (drop k xs) ys, length-append xs ys, length-take k xs, length-drop k xs)

module _ {F : Type 0} where
  -- The socket after `n` bytes were read, and the claim that they were.
  abbrev pub Reads : ℕ → List ℕ → List Arrival → Except F (List ℕ) × List Arrival → Type 0
  Reads n got s out =
      (s' : List Arrival) × (out ≡ (ok (got ++ take n (pending s)), s'))
      × (pending s' ≡ drop n (pending s))

  -- One round at a chunk, with the later rounds known.
  round :
      (fuel r : ℕ) (got : List ℕ) (b : ℕ) (bs : List ℕ) (rest : List Arrival) (k : ℕ)
      → k ≤ r
      → Reads
          (r - length (take k (b ∷ bs)))
          (got ++ take k (b ∷ bs))
          (put_back (drop k (b ∷ bs)) rest)
          (read_loop fuel
            (r - length (take k (b ∷ bs)))
            (got ++ take k (b ∷ bs))
            (put_back (drop k (b ∷ bs)) rest))
      → Reads r got (chunk (b ∷ bs) ∷ rest) (
          read_loop fuel
            (r - length (take k (b ∷ bs)))
            (got ++ take k (b ∷ bs))
            (put_back (drop k (b ∷ bs)) rest))
  unfolding pending
  round fuel r got b bs rest k h (s', out, left) = (
    s',
    rw (
      out,
      append_assoc,
      pending-put_back (drop k (b ∷ bs)) rest,
      take_in_two k r (b ∷ bs) (pending rest) h,
    ),
    rw (left, pending-put_back (drop k (b ∷ bs)) rest, drop_in_two k r (b ∷ bs) (pending rest) h),
  )

  -- The loop's round at a chunk that is not empty.
  step :
      (fuel r : ℕ) (got : List ℕ) (b : ℕ) (bs : List ℕ) (rest : List Arrival) (k : ℕ)
      → min (suc r) 65536 ≡ suc k
      → read_loop {F = F} (suc fuel) (suc r) got (chunk (b ∷ bs) ∷ rest)
        ≡ read_loop fuel
            (suc r - length (take (suc k) (b ∷ bs)))
            (got ++ take (suc k) (b ∷ bs))
            (put_back (drop (suc k) (b ∷ bs)) rest)
  unfolding read_loop recv checked_chunk
  step fuel r got b bs rest k e = ground (arith, e)

  pub read_loop_enough :
      (fuel r : ℕ) (got : List ℕ) (s : List Arrival)
      → r ≤ fuel
      → r ≤ length (pending s)
      → Reads r got s (read_loop fuel r got s)
  unfolding read_loop pending
  read_loop_enough zero zero got s h e = (s, rw append-nil, refl)
  read_loop_enough zero (suc r) got s h e = absurd (omega arith)
  read_loop_enough (suc fuel) zero got s h e = (s, rw append-nil, refl)
  read_loop_enough (suc fuel) (suc r) got [] h e = absurd (omega arith)
  read_loop_enough (suc fuel) (suc r) got (silence ∷ s) h e = absurd (omega arith)
  read_loop_enough (suc fuel) (suc r) got (failure ∷ s) h e = absurd (omega arith)
  read_loop_enough (suc fuel) (suc r) got (chunk [] ∷ s) h e = absurd (omega arith)
  read_loop_enough (suc fuel) (suc r) got (chunk (b ∷ bs) ∷ s) h e =
      let k : ℕ = min (suc r) 65536 - 1 in
      let ek : min (suc r) 65536 ≡ suc k = omega arith in
      let taken : ℕ = length (take (suc k) (b ∷ bs)) in
      rw (step fuel r got b bs s k ek) (
        round fuel (suc r) got b bs s (suc k) (omega arith) (
          read_loop_enough fuel (suc r - taken) (got ++ take (suc k) (b ∷ bs))
            (put_back (drop (suc k) (b ∷ bs)) s) (omega arith)
            (rw (pending-put_back (drop (suc k) (b ∷ bs)) s)
              (omega (arith, chunk_bound (suc k) (b ∷ bs) (pending s))))))

  -- Reading `n` bytes from a stream that holds as many yields just those.
  pub read_exactly_enough :
      (n : ℕ) (s : List Arrival) → n ≤ length (pending s) → Reads n [] s (read_exactly n s)
  unfolding read_exactly
  read_exactly_enough n s h = read_loop_enough n n [] s (omega arith) h

  -- The outcome is an `IOSAgentConnectionError`.
  abbrev pub Disconnects : {A : Type 0} → Except F A → Type 0
  Disconnects out = (e : IosError F) × (out ≡ err (ios e)) × (e.kind ≡ agent_connection_error)

  read_loop_round :
      (fuel r : ℕ) (got : List ℕ) (s : List Arrival)
      → read_loop {F = F} (suc fuel) (suc r) got s
        ≡ bind
            (next_chunk (suc r))
            (λ bytes. read_loop fuel (suc r - length bytes) (got ++ bytes))
            s
  unfolding read_loop
  read_loop_round fuel r got s = ground arith

  pub read_loop_short :
      (fuel r : ℕ) (got : List ℕ) (s : List Arrival)
      → r ≤ fuel
      → length (pending s) < r
      → Disconnects (read_loop {F = F} fuel r got s).0
  unfolding read_loop pending recv checked_chunk
  read_loop_short fuel zero got s h e = absurd (omega arith)
  read_loop_short zero (suc r) got s h e = absurd (omega arith)
  read_loop_short (suc fuel) (suc r) got [] h e = rw (read_loop_round fuel r got []) (_, refl, refl)
  read_loop_short (suc fuel) (suc r) got (silence ∷ s) h e =
      rw (read_loop_round fuel r got (silence ∷ s)) (_, refl, refl)
  read_loop_short (suc fuel) (suc r) got (failure ∷ s) h e =
      rw (read_loop_round fuel r got (failure ∷ s)) (_, refl, refl)
  read_loop_short (suc fuel) (suc r) got (chunk [] ∷ s) h e =
      rw (read_loop_round fuel r got (chunk [] ∷ s)) (_, refl, refl)
  read_loop_short (suc fuel) (suc r) got (chunk (b ∷ bs) ∷ s) h e =
      let k : ℕ = min (suc r) 65536 - 1 in
      let ek : min (suc r) 65536 ≡ suc k = omega arith in
      rw (step fuel r got b bs s k ek) (
        read_loop_short fuel (suc r - length (take (suc k) (b ∷ bs))) (got ++ take (suc k) (b ∷ bs))
          (put_back (drop (suc k) (b ∷ bs)) s) (omega arith)
          (rw (pending-put_back (drop (suc k) (b ∷ bs)) s)
            (omega (arith, chunk_bound (suc k) (b ∷ bs) (pending s)))))

-- The bytes that a socket still has to deliver, on either side of a timeout or a failure.
unfoldable pub size : List Arrival → ℕ
size [] = 0
size (chunk bs ∷ arrivals) = length bs + size arrivals
size (silence ∷ arrivals) = size arrivals
size (failure ∷ arrivals) = size arrivals

size-put_back :
    (bs : List ℕ) (arrivals : List Arrival)
    → size (put_back bs arrivals) ≡ length bs + size arrivals
unfolding size put_back
size-put_back [] arrivals = omega arith
size-put_back (b ∷ bs) arrivals = refl

module _ {F : Type 0} where
  -- A read that succeeds has taken its bytes off the socket.
  pub size-read_loop :
      (fuel r : ℕ) (got : List ℕ) (s : List Arrival) {bytes : List ℕ}
      → (read_loop {F = F} fuel r got s).0 ≡ ok bytes
      → size (read_loop {F = F} fuel r got s).1 + r ≤ size s
  unfolding read_loop recv checked_chunk size
  size-read_loop zero r got s h = ground arith
  size-read_loop (suc fuel) zero got s h = omega arith
  size-read_loop (suc fuel) (suc r) got [] h = absurd (ground arith)
  size-read_loop (suc fuel) (suc r) got (silence ∷ s) h = absurd (ground arith)
  size-read_loop (suc fuel) (suc r) got (failure ∷ s) h = absurd (ground arith)
  size-read_loop (suc fuel) (suc r) got (chunk [] ∷ s) h = absurd (ground arith)
  size-read_loop (suc fuel) (suc r) got (chunk (b ∷ bs) ∷ s) h =
      let k : ℕ = min (suc r) 65536 - 1 in
      let ek : min (suc r) 65536 ≡ suc k = omega arith in
      let taken : ℕ = length (take (suc k) (b ∷ bs)) in
      let left : List Arrival = put_back (drop (suc k) (b ∷ bs)) s in
      rw (step fuel r got b bs s k ek) (
        omega (
          arith,
          size-read_loop fuel (suc r - taken) (got ++ take (suc k) (b ∷ bs)) left
              (rw (step fuel r got b bs s k ek) at h),
          size-put_back (drop (suc k) (b ∷ bs)) s,
          length-drop (suc k) (b ∷ bs),
          length-take (suc k) (b ∷ bs),
        ))
