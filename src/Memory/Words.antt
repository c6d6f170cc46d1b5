-- ===== src/Memory/Words.antt =====
-- `uint32_t` values survive their byte representations.
use secure_cloud_storage.Common.{ℕ, ◌<◌, ◌≡◌, refl, [], ◌∷◌, length, arith}
use secure_cloud_storage.Memory.{Bytes, u32_bytes, u32_value, htonl}

pub length-u32_bytes : (n : ℕ) → length (u32_bytes n) ≡ 4
unfolding u32_bytes
length-u32_bytes n = refl

pub u32_value-u32_bytes : (n : ℕ) → n < 4294967296 → u32_value (u32_bytes n) ≡ n
unfolding u32_value u32_bytes
u32_value-u32_bytes n h = omega arith

pub u32_value-lt : (s : Bytes) → u32_value s < 4294967296
unfolding u32_value
u32_value-lt [] = omega arith
u32_value-lt (a ∷ []) = omega arith
u32_value-lt (a ∷ b ∷ []) = omega arith
u32_value-lt (a ∷ b ∷ c ∷ []) = omega arith
u32_value-lt (a ∷ b ∷ c ∷ d ∷ []) = omega arith
u32_value-lt (a ∷ b ∷ c ∷ d ∷ e ∷ s) = omega arith

pub htonl-htonl : (n : ℕ) → n < 4294967296 → htonl (htonl n) ≡ n
unfolding htonl
htonl-htonl n h = omega arith

pub htonl-lt : (n : ℕ) → htonl n < 4294967296
unfolding htonl
htonl-lt n = omega arith
