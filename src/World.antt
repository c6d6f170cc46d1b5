-- ===== src/World.antt =====
-- What a server thread holds and what surrounds it, and computations that change it and may leave
-- early: by a `return` with a code, by a `throw` of a code, or into undefined behaviour.
use secure_cloud_storage.Common.{ℕ, Bool, true, false, Option, none, some, List, ◌≡◌, length}
use secure_cloud_storage.Config.{aes_tag_len}
use secure_cloud_storage.Memory.{Bytes, c_string}
use secure_cloud_storage.Files.{Disk}

-- OpenSSL, the operating system and fresh memory, as far as the server's results depend on them.
-- `succeeds n` is whether the n-th call that may fail does not fail; `rand_bytes n len` is what
-- `RAND_bytes` leaves in a buffer then, and `fresh len` what a new buffer holds.
pub record Platform : Type 0 where
  pub seal : Bytes → Bytes → Bytes → Bytes → Bytes × Bytes
  pub unseal : Bytes → Bytes → Bytes → Bytes → Bytes → Option Bytes
  pub rand_bytes : ℕ → ℕ → Bytes
  pub succeeds : ℕ → Bool
  pub fresh : ℕ → Bytes

-- What the documentation of AES-GCM in OpenSSL promises: decryption under the same key, vector and
-- associated data inverts encryption, and accepts nothing but what encryption makes; the ciphertext
-- is as long as the plaintext, the tag has its fixed size. Buffers have the size asked for.
pub record IsLawful (p : Platform) : Type 0 where
  pub unseal-seal :
      (key iv aad plain : Bytes)
      → p.unseal key iv aad (p.seal key iv aad plain).1 (p.seal key iv aad plain).0 ≡ some plain
  pub authentic :
      (key iv aad tag cipher plain : Bytes)
      → p.unseal key iv aad tag cipher ≡ some plain
      → p.seal key iv aad plain ≡ (cipher, tag)
  pub cipher_size : (key iv aad plain : Bytes) → length (p.seal key iv aad plain).0 ≡ length plain
  pub tag_size : (key iv aad plain : Bytes) → length (p.seal key iv aad plain).1 ≡ aes_tag_len
  pub rand_size : (n len : ℕ) → length (p.rand_bytes n len) ≡ len
  pub fresh_size : (len : ℕ) → length (p.fresh len) ≡ len

-- How the peer's byte stream ends.
pub data Ending : Type 0 where
  closed failed : Ending

-- `username`, `counter` and `session_key` are the members of `Server`. `incoming` is all that the
-- peer will still send, `outgoing` the packets sent so far, `directories` and `disk` the storage,
-- and `calls` counts the calls that may fail.
pub record World : Type 0 where
  pub username : Bytes
  pub counter : ℕ
  pub session_key : Bytes
  pub incoming : Bytes
  pub ending : Ending
  pub outgoing : List Bytes
  pub directories : List Bytes
  pub disk : Disk
  pub calls : ℕ

pub data Outcome (A : Type 0) : Type 0 where
  done : A → World → Outcome A
  returned thrown : ℕ → World → Outcome A
  undefined : World → Outcome A

abbrev pub M : Type 0 → Type 0
M A = World → Outcome A

abbrev pub pure : {A : Type 0} → A → M A
pure a w = done a w

infixl 5 ◌>>=◌ ◌>>◌
abbrev pub and_then : {A B : Type 0} → Outcome A → (A → M B) → Outcome B
and_then (done a w) f = f a w
and_then (returned c w) f = returned c w
and_then (thrown c w) f = thrown c w
and_then (undefined w) f = undefined w

unfoldable pub ◌>>=◌ : {A B : Type 0} → M A → (A → M B) → M B
◌>>=◌ m f w = and_then (m w) f

abbrev pub ◌>>◌ : {B : Type 0} → M (Unit {0}) → M B → M B
m >> k = m >>= λ _. k

abbrev pub world : M World
world w = done w w

unfoldable pub modify : (World → World) → M (Unit {0})
modify f w = done tt (f w)

-- `return code;` out of the function.
abbrev pub leave : {A : Type 0} → ℕ → M A
leave code w = returned code w

abbrev pub throw : {A : Type 0} → ℕ → M A
throw code w = thrown code w

-- `if (!ok) return code;`
unfoldable pub require : Bool → ℕ → M (Unit {0})
require true code = pure tt
require false code = leave code

-- `if (failed) return code;` for a result that is `none` on failure.
unfoldable pub require_some : {A : Type 0} → Option A → ℕ → M A
require_some none code = leave code
require_some (some a) code = pure a

-- The result of a function that ends by `return`.
unfoldable pub call : M ℕ → M ℕ
call m w = elim (m w) [
  | done a v ↦ done a v
  | returned c v ↦ done c v
  | thrown c v ↦ thrown c v
  | undefined v ↦ undefined v
]

-- `(string) field`
unfoldable pub to_string : Bytes → M Bytes
to_string field w = elim (c_string field) [ none ↦ undefined w | some s ↦ done s w ]

-- The world in which a computation stops, however it does.
abbrev pub final : {A : Type 0} → Outcome A → World
final (done a w) = w
final (returned c w) = w
final (thrown c w) = w
final (undefined w) = w

-- A step that is done hands its value and its world to the rest.
pub bind-done :
    {A B : Type 0} (m : M A) (f : A → M B) (w : World) {a : A} {v : World}
    → m w ≡ done a v
    → (m >>= f) w ≡ f a v
unfolding ◌>>=◌
bind-done m f w h = rw h

pub bind-returned :
    {A B : Type 0} (m : M A) (f : A → M B) (w : World) {c : ℕ} {v : World}
    → m w ≡ returned c v
    → (m >>= f) w ≡ returned c v
unfolding ◌>>=◌
bind-returned m f w h = rw h

pub to_string-done :
    (field s : Bytes) (w : World) → c_string field ≡ some s → to_string field w ≡ done s w
unfolding to_string
to_string-done field s w h = rw (h, to_string)
