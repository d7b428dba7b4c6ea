-- ===== src/Server/Digest.antt =====
-- `digest_eq` of src/server.rs, whose loop visits every byte, decides equality.
use rathole_x.Base.{
  ℕ, ◌≡◌, refl, ◌↔◌, true, List, [], ◌∷◌, length, arith, nat_eq, nat_beq_iff, bit_or, bit_xor,
  bit_or-zero_iff, bit_xor-zero_iff,
}
use rathole_x.Server.{digest_acc, digest_eq}

digest_acc-zero :
    (acc : ℕ) (a b : List ℕ) → length a ≡ length b → digest_acc acc a b ≡ 0 → (acc ≡ 0) × (a ≡ b)
digest_acc-zero acc [] [] l h = (h, refl)
digest_acc-zero acc [] (y ∷ b) l h = absurd (omega (arith, l))
digest_acc-zero acc (x ∷ a) [] l h = absurd (omega (arith, l))
digest_acc-zero acc (x ∷ a) (y ∷ b) l h =
    let (z, e) = digest_acc-zero (bit_or acc (bit_xor x y)) a b (omega (arith, l)) h in
    let (p, q) = (bit_or-zero_iff acc (bit_xor x y)).0 z in
    let same : x ≡ y = (bit_xor-zero_iff x y).0 q in (p, rw (same, e) refl)

digest_acc_self : (a : List ℕ) → digest_acc 0 a a ≡ 0
digest_acc_self [] = refl
digest_acc_self (x ∷ a) =
    let z : bit_or 0 (bit_xor x x) ≡ 0 =
      (bit_or-zero_iff 0 (bit_xor x x)).1 (refl, (bit_xor-zero_iff x x).1 refl) in
    rw z (digest_acc_self a)

-- On digests of one length the comparison succeeds exactly when they are equal.
pub digest_eq_iff : (a b : List ℕ) → length a ≡ length b → (digest_eq a b ≡ true) ↔ (a ≡ b)
unfolding digest_eq
digest_eq_iff a b l = (
  λ h. (digest_acc-zero 0 a b l ((nat_beq_iff (digest_acc 0 a b) 0).0 h)).1,
  λ h. rw (← h, digest_acc_self a) refl,
)
