-- ===== src/Protocol/Stream.antt =====
-- `read_exact` of src/protocol.rs on a stream that holds enough bytes, and on one that ends early.
use rathole_x.Base.{
  ℕ, ◌<◌, ◌≡◌, Option, some, List, ◌++◌, length, ltb, arith, length-append, take-append_exact,
  drop-append_exact, true, false,
}
use rathole_x.Protocol.{Step, done, fail, read_failed, read_exact, read_message}

module _ (what : Step) where
  pub read_exact-append :
      (n : ℕ) (xs ys : List ℕ) → n ≡ length xs → read_exact what n (xs ++ ys) ≡ done (xs, ys)
  unfolding read_exact
  read_exact-append n xs ys h =
      let t : ltb (length (xs ++ ys)) n ≡ false = ground (arith, length-append xs ys) in
      rw (t, h, take-append_exact xs ys, drop-append_exact xs ys)

  pub read_exact-short :
      (n : ℕ) (s : List ℕ) → length s < n → read_exact what n s ≡ fail (read_failed what)
  unfolding read_exact
  read_exact-short n s h = let t : ltb (length s) n ≡ true = ground arith in rw t

  pub read_message-append {ℓ} :
      {A : Type ℓ} (n : ℕ) (decode : List ℕ → Option A) (enc rest : List ℕ) (a : A)
      → n ≡ length enc
      → decode enc ≡ some a
      → read_message what n decode (enc ++ rest) ≡ done (a, rest)
  unfolding read_message
  read_message-append n decode enc rest a size e = rw (read_exact-append n enc rest size, e)

  pub read_message-short {ℓ} :
      {A : Type ℓ} (n : ℕ) (decode : List ℕ → Option A) (s : List ℕ)
      → length s < n
      → read_message what n decode s ≡ fail (read_failed what)
  unfolding read_message
  read_message-short n decode s h = rw (read_exact-short n s h)
