-- ===== src/Messages/Listing.antt =====
-- src/messages/List.cpp
use secure_cloud_storage.Common.{
  ℕ, zero, suc, ◌+◌, ◌^◌, ◌<◌, ◌≡◌, refl, sym, ap, ◌∙◌, ◌++◌, drop, take-append, append-nil,
  length-append, [], ◌∷◌, length, take, arith, take_all, ltb, if◌then◌else◌,
}
use secure_cloud_storage.Codes.{message_code, list_ack, list_response}
use secure_cloud_storage.Memory.{Bytes, read_at, start, put_all, u32_bytes, u32_value}
use secure_cloud_storage.Memory.Laws.{joined, put_all-start, read_at-put_all, length-put_all}
use secure_cloud_storage.Memory.Words.{length-u32_bytes, u32_value-u32_bytes}
use secure_cloud_storage.Messages.Simple.{byte_of}

pub record ListM2 : Type 0 where
  pub message_code : ℕ
  pub list_size : ℕ

unfoldable pub list_m2 : ℕ → ListM2
list_m2 list_size = record { message_code = message_code list_ack; list_size = list_size }

unfoldable pub serialize_m2 : ListM2 → Bytes → Bytes
serialize_m2 m memory =
    (put_all ((m.message_code ∷ []) ∷ u32_bytes m.list_size ∷ []) (start memory)).buffer

unfoldable pub deserialize_m2 : Bytes → ListM2
deserialize_m2 buffer = record {
  message_code = byte_of (read_at buffer 0 1);
  list_size = u32_value (read_at buffer 1 4);
}

abbrev pub get_message_size_m2 : ℕ
get_message_size_m2 = 1 + 4

-- `file_list` is `[]` where the pointer is null.
pub record ListM3 : Type 0 where
  pub message_code : ℕ
  pub file_list : Bytes

unfoldable pub list_m3 : ℕ → Bytes → ListM3
list_m3 list_size file_list = record {
  message_code = message_code list_response;
  file_list = if ltb 0 list_size then take list_size file_list else [];
}

unfoldable pub serialize_m3 : ListM3 → ℕ → Bytes → Bytes
serialize_m3 m list_size memory =
    (put_all
      ((m.message_code ∷ []) ∷ (if ltb 0 list_size then take list_size m.file_list else []) ∷ [])
      (start memory)).buffer

unfoldable pub deserialize_m3 : Bytes → ℕ → ListM3
deserialize_m3 buffer list_size = record {
  message_code = byte_of (read_at buffer 0 1);
  file_list = if ltb 0 list_size then read_at buffer 1 list_size else [];
}

abbrev pub get_message_size_m3 : ℕ → ℕ
get_message_size_m3 list_size = 1 + list_size

deserialize-serialize_m2 :
    (m : ListM2) (memory : Bytes)
    → m.list_size < 2 ^ 32
    → deserialize_m2 (serialize_m2 m memory) ≡ m
unfolding serialize_m2 deserialize_m2
deserialize-serialize_m2 m memory hs =
    let code = m.message_code ∷ [] in
    let word = u32_bytes m.list_size in
    rw (
      read_at-put_all [] code (word ∷ []) memory 0 1 refl refl,
      read_at-put_all (code ∷ []) word [] memory 1 4 refl (length-u32_bytes m.list_size),
      u32_value-u32_bytes m.list_size hs,
    )

guarded_take : (n : ℕ) (s : Bytes) → length s ≡ n → (if ltb 0 n then take n s else []) ≡ s
guarded_take n [] h = ground arith
guarded_take n (c ∷ s) h = ground (arith, take_all n (c ∷ s) (omega arith))

list_m3_list : (files : Bytes) → (list_m3 (length files) files).file_list ≡ files
unfolding list_m3
list_m3_list files = guarded_take (length files) files refl

guarded_read :
    (n : ℕ) (buffer s : Bytes)
    → length s ≡ n
    → read_at buffer 1 n ≡ s
    → (if ltb 0 n then read_at buffer 1 n else []) ≡ s
guarded_read n buffer [] h e = ground arith
guarded_read n buffer (c ∷ s) h e = ground arith

serialize_m3_lem :
    (m : ListM3) (n : ℕ) (memory : Bytes)
    → length m.file_list ≡ n
    → serialize_m3 m n memory
      ≡ (put_all ((m.message_code ∷ []) ∷ m.file_list ∷ []) (start memory)).buffer
unfolding serialize_m3
serialize_m3_lem m n memory h =
    ap (λ c. (put_all ((m.message_code ∷ []) ∷ c ∷ []) (start memory)).buffer)
      (guarded_take n m.file_list h)

deserialize-serialize_m3 :
    (m : ListM3) (n : ℕ) (memory : Bytes)
    → length m.file_list ≡ n
    → deserialize_m3 (serialize_m3 m n memory) n ≡ m
unfolding deserialize_m3
deserialize-serialize_m3 m n memory h =
    let code = m.message_code ∷ [] in
    rw (serialize_m3_lem m n memory h) (
      rw (read_at-put_all [] code (m.file_list ∷ []) memory 0 1 refl refl) (
        ap (λ l. let r : ListM3 = record { message_code = m.message_code; file_list = l } in r)
          (guarded_read n _ m.file_list h
            (read_at-put_all (code ∷ []) m.file_list [] memory 1 n refl h))))

drop-nil : (n : ℕ) → ◌≡◌ {A = Bytes} (drop n []) []
drop-nil zero = refl
drop-nil (suc n) = refl

-- The first bytes of the buffer are the message, wherever the buffer ends.
module _ (m : ListM2) (memory : Bytes) where
  fields_m2 : Bytes
  fields_m2 = joined ((m.message_code ∷ []) ∷ u32_bytes m.list_size ∷ [])

  length-fields_m2 : length fields_m2 ≡ get_message_size_m2
  unfolding fields_m2
  length-fields_m2 =
      omega (arith, length-u32_bytes m.list_size, length-append (u32_bytes m.list_size) [])

  front_m2 : take get_message_size_m2 (serialize_m2 m memory) ≡ fields_m2
  unfolding serialize_m2 fields_m2
  front_m2 =
      ap (take get_message_size_m2)
        (put_all-start ((m.message_code ∷ []) ∷ u32_bytes m.list_size ∷ []) memory)
      ∙ take-append get_message_size_m2 fields_m2 _ length-fields_m2

  bare_m2 : serialize_m2 m [] ≡ fields_m2
  unfolding serialize_m2 fields_m2
  bare_m2 =
      put_all-start ((m.message_code ∷ []) ∷ u32_bytes m.list_size ∷ []) []
      ∙ ap (λ r. fields_m2 ++ r) (drop-nil _)
      ∙ append-nil fields_m2

  pub deserialize_m2-front :
      m.list_size < 2 ^ 32
      → (deserialize_m2 (take get_message_size_m2 (serialize_m2 m memory)) ≡ m)
        × (length (take get_message_size_m2 (serialize_m2 m memory)) ≡ get_message_size_m2)
  deserialize_m2-front small = (
    ap deserialize_m2 (front_m2 ∙ sym bare_m2) ∙ deserialize-serialize_m2 m [] small,
    ap length front_m2 ∙ length-fields_m2,
  )

-- The two answers to a list request arrive as they were made: the size below 2^32, then the list
-- of that size, empty lists included, in buffers of the sizes that are announced.
pub list_reply_arrives :
    (files memory memory' : Bytes)
    → length files < 2 ^ 32
    → length memory' ≡ get_message_size_m3 (length files)
    → let n = length files in
      let sent = serialize_m3 (list_m3 n files) n memory' in
      (deserialize_m2 (serialize_m2 (list_m2 n) memory) ≡ list_m2 n)
      × (deserialize_m3 sent n ≡ list_m3 n files)
      × ((deserialize_m3 sent n).file_list ≡ files)
      × (length sent ≡ get_message_size_m3 n)
unfolding list_m2
list_reply_arrives files memory memory' small hm =
    let n = length files in
    let m = list_m3 n files in
    let whole = list_m3_list files in
    let size : length m.file_list ≡ n = ap length whole in
    let trip = deserialize-serialize_m3 m n memory' size in
    let fields = (m.message_code ∷ []) ∷ m.file_list ∷ [] in
    (
      deserialize-serialize_m2 (list_m2 n) memory small,
      trip,
      rw trip whole,
      rw (serialize_m3_lem m n memory' size) (length-put_all fields memory' (omega arith) ∙ hm),
    )
