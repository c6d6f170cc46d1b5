-- ===== src/Channel/Lengths.antt =====
-- The lengths that keep their value as `int`: all below 2^31.
use secure_cloud_storage.Common.{
  ℕ, zero, suc, ◌^◌, ◌<◌, ◌≡◌, ap, refl, some, [], ◌∷◌, take, drop, arith,
}
use secure_cloud_storage.Memory.{Bytes, read_at}
use secure_cloud_storage.Messages.Generic
use secure_cloud_storage.World.{Platform}
use secure_cloud_storage.Channel.{int_of, decrypt, aes_decrypt}

pub int_of-lt : (n : ℕ) → n < 2 ^ 31 → int_of n ≡ some n
unfolding int_of
int_of-lt n small = ground arith

take-take : (n : ℕ) (s : Bytes) → take n (take n s) ≡ take n s
take-take zero s = refl
take-take (suc n) [] = refl
take-take (suc n) (c ∷ s) = ap (λ t. c ∷ t) (take-take n s)

-- The ciphertext of a received message is as long as it says, or shorter.
pub decrypt-whole :
    (p : Platform) (key buffer : Bytes) (len : ℕ)
    → len < 2 ^ 31
    → let m = Generic.deserialize buffer len in
      decrypt p key m ≡ aes_decrypt p key m.aad m.iv m.tag m.ciphertext
unfolding decrypt Generic.deserialize read_at
decrypt-whole p key buffer len small =
    rw (int_of-lt len small, decrypt)
      (ap (aes_decrypt p key (read_at buffer 12 4) (read_at buffer 0 12) (read_at buffer 16 16))
        (take-take len (drop 32 buffer)))
