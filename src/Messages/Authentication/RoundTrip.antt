-- ===== src/Messages/Authentication/RoundTrip.antt =====
-- The authentication messages are read back as they were made.
use secure_cloud_storage.Common.{
  ℕ, zero, ◌==◌, ◌-◌, ◌^◌, ◌≤◌, ◌<◌, ◌≡◌, refl, [], ◌∷◌, ◌++◌, length, replicate, take, arith,
  take_all, take-append, length-append, length-replicate, length-take,
}
use secure_cloud_storage.Config.{iv_len, aad_len, aes_tag_len, username_len}
use secure_cloud_storage.Memory.{Bytes, u32_bytes, u32_value, htonl}
use secure_cloud_storage.Memory.Laws.{read_at-put_all, length-strncpy}
use secure_cloud_storage.Memory.Words.{length-u32_bytes, u32_value-u32_bytes, htonl-htonl, htonl-lt}
use secure_cloud_storage.Messages.Authentication.{
  AuthenticationM1, AuthenticationM3, AuthenticationM4, ephemeral_key_len, encrypted_signature_len,
  max_serialized_certificate_len, zero_padded, authentication_m1, authentication_m3,
  authentication_m4, serialize_m1, serialize_m3, serialize_m4, deserialize_m1, deserialize_m3,
  deserialize_m4, check_counter_m4,
}

pub length-zero_padded : (s : Bytes) (n : ℕ) → length s ≤ n → length (zero_padded s n) ≡ n
unfolding zero_padded
length-zero_padded s n h =
    omega
      (arith, length-append s (replicate (n - length s) 0), length-replicate (n - length s) zero)

-- A number survives the trip through network byte order.
network_word : (n : ℕ) → n < 2 ^ 32 → htonl (u32_value (u32_bytes (htonl n))) ≡ n
network_word n h = rw (u32_value-u32_bytes (htonl n) (htonl-lt n)) (htonl-htonl n h)

-- The fields of a first message have the sizes of their arrays.
record IsSizedM1 (m : AuthenticationM1) : Type 0 where
  key_size : length m.ephemeral_key ≡ ephemeral_key_len
  key_len_fits : m.ephemeral_key_len < 2 ^ 32
  username_size : length m.username ≡ username_len

deserialize-serialize_m1 :
    (m : AuthenticationM1) (memory : Bytes)
    → IsSizedM1 m
    → deserialize_m1 (serialize_m1 m memory) ≡ m
unfolding serialize_m1 deserialize_m1
deserialize-serialize_m1 m memory h =
    let code = m.message_code ∷ [] in
    let key = m.ephemeral_key in
    let word = u32_bytes (htonl m.ephemeral_key_len) in
    rw (
      read_at-put_all [] code (key ∷ word ∷ m.username ∷ []) memory 0 1 refl refl,
      read_at-put_all (code ∷ []) key (word ∷ m.username ∷ []) memory 1 1024 refl h.key_size,
      read_at-put_all (code ∷ key ∷ []) word (m.username ∷ []) memory 1025 4 (omega arith)
          (length-u32_bytes (htonl m.ephemeral_key_len)),
      read_at-put_all (code ∷ key ∷ word ∷ []) m.username [] memory 1029 35
          (omega (arith, length-u32_bytes (htonl m.ephemeral_key_len))) h.username_size,
      network_word m.ephemeral_key_len h.key_len_fits,
    )

authentication_m1-IsSizedM1 :
    (key username : Bytes)
    → length key ≤ ephemeral_key_len
    → IsSizedM1 (authentication_m1 key username)
unfolding authentication_m1
authentication_m1-IsSizedM1 key username fits = record {
  key_size = length-zero_padded key ephemeral_key_len fits;
  key_len_fits = omega arith;
  username_size = length-strncpy username_len username;
}

-- The key is cut out of its padded array by its length.
cut_key : (s : Bytes) (n : ℕ) → take (length s) (zero_padded s n) ≡ s
unfolding zero_padded
cut_key s n = take-append (length s) s (replicate (n - length s) 0) refl

m1_key :
    (key username : Bytes)
    → take
        (authentication_m1 key username).ephemeral_key_len
        (authentication_m1 key username).ephemeral_key
      ≡ key
unfolding authentication_m1
m1_key key username = cut_key key ephemeral_key_len

-- The first message arrives as it was made, for every key that fits its array: the server reads
-- the same message, and can cut the key out of its padded array.
pub authentication_m1_arrives :
    (key username memory : Bytes)
    → length key ≤ ephemeral_key_len
    → let got = deserialize_m1 (serialize_m1 (authentication_m1 key username) memory) in
      (got ≡ authentication_m1 key username) × (take got.ephemeral_key_len got.ephemeral_key ≡ key)
authentication_m1_arrives key username memory fits =
    let m = authentication_m1 key username in
    let trip = deserialize-serialize_m1 m memory (authentication_m1-IsSizedM1 key username fits) in
    (trip, rw trip (m1_key key username))

-- The fields of a third message have the sizes of their arrays.
record IsSizedM3 (m : AuthenticationM3) : Type 0 where
  key_size : length m.ephemeral_key ≡ ephemeral_key_len
  key_len_fits : m.ephemeral_key_len < 2 ^ 32
  iv_size : length m.iv ≡ iv_len
  aad_size : length m.aad ≡ aad_len
  tag_size : length m.tag ≡ aes_tag_len
  signature_size : length m.encrypted_digital_signature ≡ encrypted_signature_len
  certificate_size : length m.serialized_certificate ≡ max_serialized_certificate_len
  certificate_len_fits : m.serialized_certificate_len < 2 ^ 32

module _ (m : AuthenticationM3) (memory : Bytes) (h : IsSizedM3 m) where
  deserialize-serialize_m3 : deserialize_m3 (serialize_m3 m memory) ≡ m
  unfolding serialize_m3 deserialize_m3
  deserialize-serialize_m3 =
      let key = m.ephemeral_key in
      let word = u32_bytes (htonl m.ephemeral_key_len) in
      let sig = m.encrypted_digital_signature in
      let cert = m.serialized_certificate in
      let last = u32_bytes (htonl m.serialized_certificate_len) in
      let four : length word ≡ 4 = length-u32_bytes (htonl m.ephemeral_key_len) in
      let from_cert = cert ∷ last ∷ [] in
      let from_tag = m.tag ∷ sig ∷ from_cert in
      let to_aad = key ∷ word ∷ m.iv ∷ m.aad ∷ [] in
      rw (
        read_at-put_all [] key (word ∷ m.iv ∷ m.aad ∷ from_tag) memory 0 1024 refl h.key_size,
        read_at-put_all (key ∷ []) word (m.iv ∷ m.aad ∷ from_tag) memory 1024 4 (omega arith) four,
        read_at-put_all (key ∷ word ∷ []) m.iv (m.aad ∷ from_tag) memory 1028 12 (omega arith)
            h.iv_size,
        read_at-put_all (key ∷ word ∷ m.iv ∷ []) m.aad from_tag memory 1040 4 (omega arith)
            h.aad_size,
        read_at-put_all to_aad m.tag (sig ∷ from_cert) memory 1044 16 (omega arith) h.tag_size,
        read_at-put_all (to_aad ++ m.tag ∷ []) sig from_cert memory 1060 128 (omega arith)
            h.signature_size,
        read_at-put_all (to_aad ++ m.tag ∷ sig ∷ []) cert (last ∷ []) memory 1188 1500 (omega arith)
            h.certificate_size,
        read_at-put_all (to_aad ++ m.tag ∷ sig ∷ cert ∷ []) last [] memory 2688 4 (omega arith)
            (length-u32_bytes (htonl m.serialized_certificate_len)),
        network_word m.ephemeral_key_len h.key_len_fits,
        network_word m.serialized_certificate_len h.certificate_len_fits,
      )

length-take_exact : (n : ℕ) (s : Bytes) → n ≤ length s → length (take n s) ≡ n
length-take_exact n s h = omega (arith, length-take n s)

module _ (key iv aad tag signature certificate : Bytes) where
  authentication_m3-IsSizedM3 :
      length key ≤ ephemeral_key_len
      → length iv ≡ iv_len
      → length aad ≡ aad_len
      → length tag ≡ aes_tag_len
      → encrypted_signature_len ≤ length signature
      → length certificate ≤ max_serialized_certificate_len
      → IsSizedM3 (authentication_m3 key iv aad tag signature certificate)
  unfolding authentication_m3
  authentication_m3-IsSizedM3 hk hi ha ht hs hc = record {
    key_size = length-zero_padded key ephemeral_key_len hk;
    key_len_fits = omega arith;
    iv_size = length-take_exact iv_len iv (omega arith);
    aad_size = length-take_exact aad_len aad (omega arith);
    tag_size = length-take_exact aes_tag_len tag (omega arith);
    signature_size = length-take_exact encrypted_signature_len signature hs;
    certificate_size = length-zero_padded certificate max_serialized_certificate_len hc;
    certificate_len_fits = omega arith;
  }

  m3_parts :
      let m = authentication_m3 key iv aad tag signature certificate in
      (take m.ephemeral_key_len m.ephemeral_key ≡ key)
      × (take m.serialized_certificate_len m.serialized_certificate ≡ certificate)
  unfolding authentication_m3
  m3_parts = (cut_key key ephemeral_key_len, cut_key certificate max_serialized_certificate_len)

  -- The server's answer arrives as it was made, for a key, a signature and a certificate that fit
  -- their arrays: the client reads the same message, and can cut the key and the certificate out
  -- of their padded arrays.
  pub authentication_m3_arrives :
      (memory : Bytes)
      → length key ≤ ephemeral_key_len
      → length iv ≡ iv_len
      → length aad ≡ aad_len
      → length tag ≡ aes_tag_len
      → encrypted_signature_len ≤ length signature
      → length certificate ≤ max_serialized_certificate_len
      → let m = authentication_m3 key iv aad tag signature certificate in
        let got = deserialize_m3 (serialize_m3 m memory) in
        (got ≡ m)
        × (take got.ephemeral_key_len got.ephemeral_key ≡ key)
        × (take got.serialized_certificate_len got.serialized_certificate ≡ certificate)
  authentication_m3_arrives memory hk hi ha ht hs hc =
      let m = authentication_m3 key iv aad tag signature certificate in
      let sized = authentication_m3-IsSizedM3 hk hi ha ht hs hc in
      let trip = deserialize-serialize_m3 m memory sized in
      (trip, rw trip m3_parts.0, rw trip m3_parts.1)

module _ (iv aad tag signature : Bytes) where
  m4_sizes :
      length iv ≡ iv_len
      → length aad ≡ aad_len
      → length tag ≡ aes_tag_len
      → encrypted_signature_len ≤ length signature
      → let m = authentication_m4 iv aad tag signature in
        (length m.iv ≡ iv_len)
        × (length m.aad ≡ aad_len)
        × (length m.tag ≡ aes_tag_len)
        × (length m.encrypted_digital_signature ≡ encrypted_signature_len)
        × (m.aad ≡ aad)
  unfolding authentication_m4
  m4_sizes hi ha ht hs = (
    length-take_exact iv_len iv (omega arith),
    length-take_exact aad_len aad (omega arith),
    length-take_exact aes_tag_len tag (omega arith),
    length-take_exact encrypted_signature_len signature hs,
    take_all aad_len aad (omega arith),
  )

deserialize-serialize_m4 :
    (m : AuthenticationM4) (memory : Bytes)
    → length m.iv ≡ iv_len
    → length m.aad ≡ aad_len
    → length m.tag ≡ aes_tag_len
    → length m.encrypted_digital_signature ≡ encrypted_signature_len
    → deserialize_m4 (serialize_m4 m memory) ≡ m
unfolding serialize_m4 deserialize_m4
deserialize-serialize_m4 m memory hi ha ht hs =
    let sig = m.encrypted_digital_signature in
    rw (
      read_at-put_all [] m.iv (m.aad ∷ m.tag ∷ sig ∷ []) memory 0 12 refl hi,
      read_at-put_all (m.iv ∷ []) m.aad (m.tag ∷ sig ∷ []) memory 12 4 (omega arith) ha,
      read_at-put_all (m.iv ∷ m.aad ∷ []) m.tag (sig ∷ []) memory 16 16 (omega arith) ht,
      read_at-put_all (m.iv ∷ m.aad ∷ m.tag ∷ []) sig [] memory 32 128 (omega arith) hs,
    )

check_counter_m4_lem :
    (m : AuthenticationM4) (c k : ℕ)
    → m.aad ≡ u32_bytes c
    → c < 2 ^ 32
    → check_counter_m4 m k ≡ (c == k)
unfolding check_counter_m4
check_counter_m4_lem m c k e h = rw (e, u32_value-u32_bytes c h)

-- The client's last message arrives as it was made, and the counter check of the receiver passes
-- on it exactly for the counter that the sender put into the associated data.
pub authentication_m4_arrives :
    (iv tag signature memory : Bytes) (c k : ℕ)
    → length iv ≡ iv_len
    → length tag ≡ aes_tag_len
    → encrypted_signature_len ≤ length signature
    → c < 2 ^ 32
    → let m = authentication_m4 iv (u32_bytes c) tag signature in
      let got = deserialize_m4 (serialize_m4 m memory) in
      (got ≡ m) × (check_counter_m4 got k ≡ (c == k))
authentication_m4_arrives iv tag signature memory c k hi ht hs hc =
    let aad = u32_bytes c in
    let m = authentication_m4 iv aad tag signature in
    let (si, sa, st, ss, keep) = m4_sizes iv aad tag signature hi (length-u32_bytes c) ht hs in
    let trip = deserialize-serialize_m4 m memory si sa st ss in
    (trip, rw trip (check_counter_m4_lem m c k keep hc))
