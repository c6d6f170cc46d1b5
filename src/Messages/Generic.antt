-- ===== src/Messages/Generic.antt =====
-- src/messages/Generic.cpp: the envelope of every message after the authentication. `encrypt` and
-- `decrypt` are in Server/Channel, beside the cipher that they call.
use secure_cloud_storage.Common.{
  ℕ, ◌+◌, ◌^◌, ◌<◌, ◌≡◌, refl, ap, ◌∙◌, [], ◌∷◌, length, replicate, take, arith, take_all,
}
use secure_cloud_storage.Config.{iv_len, aad_len, aes_tag_len}
use secure_cloud_storage.Memory.{Bytes, read_at, start, put_all, u32_bytes, u32_value, htonl, ntohl}
use secure_cloud_storage.Memory.Laws.{read_at-put_all, length-put_all}
use secure_cloud_storage.Memory.Words.{u32_value-u32_bytes, htonl-htonl, htonl-lt}

pub record Generic : Type 0 where
  pub iv : Bytes
  pub aad : Bytes
  pub tag : Bytes
  pub ciphertext : Bytes
  pub ciphertext_len : ℕ

-- `Generic(counter)`: the counter in network byte order is the associated data.
unfoldable pub generic : ℕ → Generic
generic counter = record {
  iv = replicate iv_len 0;
  aad = u32_bytes (htonl counter);
  tag = replicate aes_tag_len 0;
  ciphertext = [];
  ciphertext_len = 0;
}

unfoldable pub serialize : Generic → Bytes → Bytes
serialize m memory =
    (put_all (m.iv ∷ m.aad ∷ m.tag ∷ take m.ciphertext_len m.ciphertext ∷ []) (start memory)).buffer

unfoldable pub deserialize : Bytes → ℕ → Generic
deserialize buffer ciphertext_len = record {
  iv = read_at buffer 0 iv_len;
  aad = read_at buffer iv_len aad_len;
  tag = read_at buffer (iv_len + aad_len) aes_tag_len;
  ciphertext = read_at buffer (iv_len + aad_len + aes_tag_len) ciphertext_len;
  ciphertext_len = ciphertext_len;
}

abbrev pub get_message_size : ℕ → ℕ
get_message_size plaintext_len = iv_len + aad_len + aes_tag_len + plaintext_len

unfoldable pub get_counter : Generic → ℕ
get_counter m = ntohl (u32_value m.aad)

-- The fields have the sizes of their arrays.
pub record IsSized (m : Generic) : Type 0 where
  pub iv_size : length m.iv ≡ iv_len
  pub aad_size : length m.aad ≡ aad_len
  pub tag_size : length m.tag ≡ aes_tag_len
  pub ciphertext_size : length m.ciphertext ≡ m.ciphertext_len

serialize_lem :
    (m : Generic) (memory : Bytes)
    → IsSized m
    → serialize m memory
      ≡ (put_all (m.iv ∷ m.aad ∷ m.tag ∷ m.ciphertext ∷ []) (start memory)).buffer
unfolding serialize
serialize_lem m memory h =
    ap (λ c. (put_all (m.iv ∷ m.aad ∷ m.tag ∷ c ∷ []) (start memory)).buffer)
      (take_all m.ciphertext_len m.ciphertext (omega arith))

pub deserialize-serialize :
    (m : Generic) (memory : Bytes)
    → IsSized m
    → deserialize (serialize m memory) m.ciphertext_len ≡ m
unfolding deserialize
deserialize-serialize m memory h = rw (serialize_lem m memory h) (
    rw (
      read_at-put_all [] m.iv (m.aad ∷ m.tag ∷ m.ciphertext ∷ []) memory 0 12 refl h.iv_size,
      read_at-put_all (m.iv ∷ []) m.aad (m.tag ∷ m.ciphertext ∷ []) memory 12 4 (omega arith)
          h.aad_size,
      read_at-put_all (m.iv ∷ m.aad ∷ []) m.tag (m.ciphertext ∷ []) memory 16 16 (omega arith)
          h.tag_size,
      read_at-put_all (m.iv ∷ m.aad ∷ m.tag ∷ []) m.ciphertext [] memory 32 m.ciphertext_len
          (omega arith) h.ciphertext_size,
    ))

pub length-serialize :
    (m : Generic) (memory : Bytes)
    → IsSized m
    → length memory ≡ get_message_size m.ciphertext_len
    → length (serialize m memory) ≡ get_message_size m.ciphertext_len
length-serialize m memory h hm =
    rw (serialize_lem m memory h)
      (length-put_all (m.iv ∷ m.aad ∷ m.tag ∷ m.ciphertext ∷ []) memory (omega arith) ∙ hm)

pub get_counter-generic : (counter : ℕ) → counter < 2 ^ 32 → get_counter (generic counter) ≡ counter
unfolding get_counter generic
get_counter-generic counter h =
    rw (u32_value-u32_bytes (htonl counter) (htonl-lt counter)) (htonl-htonl counter h)

-- An envelope arrives whole: its vector, associated data, tag and ciphertext are read back, the
-- buffer has the size that the receiver waits for, and the counter of a new envelope is the one
-- that it was made with.
pub generic_arrives :
    (m : Generic) (memory : Bytes) (counter : ℕ)
    → IsSized m
    → length memory ≡ get_message_size m.ciphertext_len
    → counter < 2 ^ 32
    → m.aad ≡ (generic counter).aad
    → let got = deserialize (serialize m memory) m.ciphertext_len in
      (got ≡ m)
      × (get_counter got ≡ counter)
      × (length (serialize m memory) ≡ get_message_size m.ciphertext_len)
unfolding get_counter
generic_arrives m memory counter h hm hc ha =
    let trip = deserialize-serialize m memory h in
    (trip, rw (trip, ha) (get_counter-generic counter hc), length-serialize m memory h hm)
