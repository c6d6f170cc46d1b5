-- ===== src/Messages/Upload.antt =====
-- src/messages/Upload.cpp
use secure_cloud_storage.Common.{
  ℕ, ◌+◌, ◌%◌, ◌^◌, ◌≤◌, ◌<◌, ◌≡◌, refl, ap, ◌∙◌, [], ◌∷◌, length, take, append-nil, length-take,
  some, arith, ltb, lt→ltb, if◌then◌else◌, take_all,
}
use secure_cloud_storage.Config.{file_name_len, max_packet_size}
use secure_cloud_storage.Codes.{message_code, upload_request, upload_chunk}
use secure_cloud_storage.Memory.{
  Bytes, read_at, start, put_all, strncpy, c_string, u32_bytes, u32_value,
}
use secure_cloud_storage.Memory.Laws.{
  NonNul, read_at-put_all, length-put_all, put_all-exact, length-strncpy, c_string-strncpy,
}
use secure_cloud_storage.Memory.Words.{length-u32_bytes, u32_value-u32_bytes}
use secure_cloud_storage.Messages.Simple.{byte_of}

pub record UploadM1 : Type 0 where
  pub message_code : ℕ
  pub filename : Bytes
  pub file_size : ℕ

-- The constructor. A size of 4 GB or more becomes 0.
unfoldable pub upload_m1 : Bytes → ℕ → UploadM1
upload_m1 filename file_size = record {
  message_code = message_code upload_request;
  filename = strncpy file_name_len filename;
  file_size = if ltb file_size 4000000000 then file_size % 2 ^ 32 else 0;
}

unfoldable pub serialize_upload_m1 : UploadM1 → Bytes → Bytes → Bytes
serialize_upload_m1 m random memory =
    (put_all ((m.message_code ∷ []) ∷ m.filename ∷ u32_bytes m.file_size ∷ random ∷ [])
      (start memory)).buffer

unfoldable pub deserialize_upload_m1 : Bytes → UploadM1
deserialize_upload_m1 buffer = record {
  message_code = byte_of (read_at buffer 0 1);
  filename = read_at buffer 1 file_name_len;
  file_size = u32_value (read_at buffer (1 + file_name_len) 4);
}

abbrev pub get_size_upload_m1 : ℕ
get_size_upload_m1 = 1 + file_name_len + 4

pub record UploadMi : Type 0 where
  pub message_code : ℕ
  pub chunk : Bytes
  pub chunk_size : ℕ

unfoldable pub upload_mi : Bytes → ℕ → UploadMi
upload_mi chunk chunk_size = record {
  message_code = message_code upload_chunk;
  chunk = take chunk_size chunk;
  chunk_size = chunk_size;
}

abbrev pub get_size_upload_mi : ℕ → ℕ
get_size_upload_mi chunk_size = 1 + chunk_size

unfoldable pub serialize_upload_mi : UploadMi → Bytes → Bytes
serialize_upload_mi m memory =
    (put_all ((m.message_code ∷ []) ∷ take m.chunk_size m.chunk ∷ []) (start memory)).buffer

unfoldable pub deserialize_upload_mi : Bytes → ℕ → UploadMi
deserialize_upload_mi buffer chunk_size = record {
  message_code = byte_of (read_at buffer 0 1);
  chunk = read_at buffer 1 chunk_size;
  chunk_size = chunk_size;
}

deserialize-serialize_upload_m1 :
    (m : UploadM1) (random memory : Bytes)
    → length m.filename ≡ file_name_len
    → m.file_size < 2 ^ 32
    → deserialize_upload_m1 (serialize_upload_m1 m random memory) ≡ m
unfolding serialize_upload_m1 deserialize_upload_m1
deserialize-serialize_upload_m1 m random memory hf hs =
    let code = m.message_code ∷ [] in
    let word = u32_bytes m.file_size in
    rw (
      read_at-put_all [] code (m.filename ∷ word ∷ random ∷ []) memory 0 1 refl refl,
      read_at-put_all (code ∷ []) m.filename (word ∷ random ∷ []) memory 1 35 refl hf,
      read_at-put_all (code ∷ m.filename ∷ []) word (random ∷ []) memory 36 4 (omega arith)
          (length-u32_bytes m.file_size),
      u32_value-u32_bytes m.file_size hs,
    )

upload_m1_size :
    (name : Bytes) (size : ℕ) → size < 4000000000 → (upload_m1 name size).file_size ≡ size
unfolding upload_m1
upload_m1_size name size small = rw (lt→ltb size 4000000000 small) (omega arith)

-- An upload request for a name that fits its field and a size below 4 GB arrives as it was made:
-- the server reads the same message, from it the same name and the same size, and the request
-- fills exactly one packet.
pub upload_m1_arrives :
    (name random memory : Bytes) (size : ℕ)
    → NonNul name
    → length name < file_name_len
    → size < 4000000000
    → length memory ≡ max_packet_size
    → length random + get_size_upload_m1 ≡ max_packet_size
    → let sent = serialize_upload_m1 (upload_m1 name size) random memory in
      let got = deserialize_upload_m1 sent in
      (got ≡ upload_m1 name size)
      × (c_string got.filename ≡ some name)
      × (got.file_size ≡ size)
      × (length sent ≡ max_packet_size)
unfolding upload_m1 serialize_upload_m1
upload_m1_arrives name random memory size nonnul fits small hm hr =
    let m = upload_m1 name size in
    let field : length m.filename ≡ file_name_len = length-strncpy file_name_len name in
    let size_eq = upload_m1_size name size small in
    let trip = deserialize-serialize_upload_m1 m random memory field (omega arith) in
    let fields = (m.message_code ∷ []) ∷ m.filename ∷ u32_bytes m.file_size ∷ random ∷ [] in
    (
      trip,
      rw trip (c_string-strncpy file_name_len name nonnul fits),
      rw trip size_eq,
      length-put_all fields memory (omega (arith, length-u32_bytes m.file_size)) ∙ hm,
    )

serialize_upload_mi_lem :
    (m : UploadMi) (memory : Bytes)
    → length m.chunk ≡ m.chunk_size
    → serialize_upload_mi m memory
      ≡ (put_all ((m.message_code ∷ []) ∷ m.chunk ∷ []) (start memory)).buffer
unfolding serialize_upload_mi
serialize_upload_mi_lem m memory h =
    ap (λ c. (put_all ((m.message_code ∷ []) ∷ c ∷ []) (start memory)).buffer)
      (take_all m.chunk_size m.chunk (omega arith))

deserialize-serialize_upload_mi :
    (m : UploadMi) (memory : Bytes)
    → length m.chunk ≡ m.chunk_size
    → deserialize_upload_mi (serialize_upload_mi m memory) m.chunk_size ≡ m
unfolding deserialize_upload_mi
deserialize-serialize_upload_mi m memory h =
    let code = m.message_code ∷ [] in
    rw (serialize_upload_mi_lem m memory h) (
      rw (
        read_at-put_all [] code (m.chunk ∷ []) memory 0 1 refl refl,
        read_at-put_all (code ∷ []) m.chunk [] memory 1 m.chunk_size refl h,
      ))

upload_mi_chunk : (chunk : Bytes) → (upload_mi chunk (length chunk)).chunk ≡ chunk
unfolding upload_mi
upload_mi_chunk chunk = take_all (length chunk) chunk (omega arith)

-- The chunk message's bytes.
pub chunk_bytes :
    (n : ℕ) (buffer memory : Bytes)
    → n ≤ length buffer
    → length memory ≡ get_size_upload_mi n
    → serialize_upload_mi (upload_mi buffer n) memory ≡ message_code upload_chunk ∷ take n buffer
unfolding serialize_upload_mi upload_mi
chunk_bytes n buffer memory enough h =
    let chunk = take n (take n buffer) in
    put_all-exact ((message_code upload_chunk ∷ []) ∷ chunk ∷ []) memory
      (omega (arith, length-take n (take n buffer), length-take n buffer))
    ∙ ap (λ c. message_code upload_chunk ∷ c)
        (append-nil chunk ∙ take_all n (take n buffer) (omega (arith, length-take n buffer)))

-- A chunk message is read back as it was made, with the chunk that it was made from, and has the
-- size that the receiver waits for.
pub upload_mi_arrives :
    (chunk memory : Bytes)
    → length memory ≡ get_size_upload_mi (length chunk)
    → let sent = serialize_upload_mi (upload_mi chunk (length chunk)) memory in
      let got = deserialize_upload_mi sent (length chunk) in
      (got ≡ upload_mi chunk (length chunk))
      × (got.chunk ≡ chunk)
      × (length sent ≡ get_size_upload_mi (length chunk))
unfolding upload_mi
upload_mi_arrives chunk memory hm =
    let m = upload_mi chunk (length chunk) in
    let whole = upload_mi_chunk chunk in
    let size : length m.chunk ≡ length chunk = ap length whole in
    let trip = deserialize-serialize_upload_mi m memory size in
    let fields = (m.message_code ∷ []) ∷ m.chunk ∷ [] in
    (
      trip,
      rw trip whole,
      rw (serialize_upload_mi_lem m memory size) (length-put_all fields memory (omega arith) ∙ hm),
    )
