-- ===== src/Messages/Download.antt =====
-- src/messages/Download.cpp
use secure_cloud_storage.Common.{
  ℕ, ◌+◌, ◌%◌, ◌^◌, ◌≤◌, ◌<◌, ◌≡◌, length-take, refl, sym, ap, ◌∙◌, [], ◌∷◌, length, take,
  append-nil, Option, some, none, arith, take_all,
}
use mathlib.Core.Option
use secure_cloud_storage.Config.{file_name_len, max_packet_size}
use secure_cloud_storage.Codes.{message_code, download_request, download_chunk}
use secure_cloud_storage.Memory.{
  Bytes, read_at, start, put_all, strncpy, c_string, u32_bytes, u32_value,
}
use secure_cloud_storage.Memory.Laws.{
  NonNul, put_all-exact, length-put_all, read_at-put_all, length-strncpy, c_string-strncpy,
}
use secure_cloud_storage.Memory.Words.{length-u32_bytes, u32_value-u32_bytes}
use secure_cloud_storage.Messages.Simple.{byte_of, first_byte}

pub record DownloadM1 : Type 0 where
  pub message_code : ℕ
  pub filename : Bytes

unfoldable pub download_m1 : Bytes → DownloadM1
download_m1 filename = record {
  message_code = message_code download_request;
  filename = strncpy file_name_len filename;
}

-- `random` is what `RAND_bytes` delivers, `none` when it fails: then there is no message.
unfoldable pub serialize_m1 : DownloadM1 → Option Bytes → Bytes → Option Bytes
serialize_m1 m none memory = none
serialize_m1 m (some random) memory =
    some (put_all ((m.message_code ∷ []) ∷ m.filename ∷ random ∷ []) (start memory)).buffer

unfoldable pub deserialize_m1 : Bytes → DownloadM1
deserialize_m1 buffer = record {
  message_code = byte_of (read_at buffer 0 1);
  filename = read_at buffer 1 file_name_len;
}

abbrev pub get_message_size_m1 : ℕ
get_message_size_m1 = 1 + file_name_len

pub record DownloadM2 : Type 0 where
  pub message_code : ℕ
  pub file_size : ℕ

unfoldable pub download_m2 : ℕ → ℕ → DownloadM2
download_m2 message_code file_size = record {
  message_code = message_code;
  file_size = file_size % 2 ^ 32;
}

unfoldable pub serialize_m2 : DownloadM2 → Bytes → Bytes
serialize_m2 m memory =
    (put_all ((m.message_code ∷ []) ∷ u32_bytes m.file_size ∷ []) (start memory)).buffer

unfoldable pub deserialize_m2 : Bytes → DownloadM2
deserialize_m2 buffer = record {
  message_code = byte_of (read_at buffer 0 1);
  file_size = u32_value (read_at buffer 1 4);
}

abbrev pub get_message_size_m2 : ℕ
get_message_size_m2 = 1 + 4

pub record DownloadMi : Type 0 where
  pub message_code : ℕ
  pub file_chunk : Bytes

unfoldable pub download_mi : Bytes → ℕ → DownloadMi
download_mi file_chunk chunk_size = record {
  message_code = message_code download_chunk;
  file_chunk = take chunk_size file_chunk;
}

unfoldable pub serialize_mi : DownloadMi → ℕ → Bytes → Bytes
serialize_mi m chunk_size memory =
    (put_all ((m.message_code ∷ []) ∷ take chunk_size m.file_chunk ∷ []) (start memory)).buffer

unfoldable pub deserialize_mi : Bytes → ℕ → DownloadMi
deserialize_mi buffer chunk_size = record {
  message_code = byte_of (read_at buffer 0 1);
  file_chunk = read_at buffer 1 chunk_size;
}

abbrev pub get_message_size_mi : ℕ → ℕ
get_message_size_mi chunk_size = 1 + chunk_size

deserialize-serialize_m1 :
    (m : DownloadM1) (random memory : Bytes)
    → length m.filename ≡ file_name_len
    → Option.map deserialize_m1 (serialize_m1 m (some random) memory) ≡ some m
unfolding serialize_m1 deserialize_m1
deserialize-serialize_m1 m random memory hf =
    let code = m.message_code ∷ [] in
    rw (
      read_at-put_all [] code (m.filename ∷ random ∷ []) memory 0 1 refl refl,
      read_at-put_all (code ∷ []) m.filename (random ∷ []) memory 1 35 refl hf,
    )

-- A download request for a name that fits its field arrives as it was made, with that name.
pub download_m1_arrives :
    (name random memory : Bytes)
    → NonNul name
    → length name < file_name_len
    → (Option.map deserialize_m1 (serialize_m1 (download_m1 name) (some random) memory)
        ≡ some (download_m1 name))
      × (c_string (download_m1 name).filename ≡ some name)
unfolding download_m1
download_m1_arrives name random memory nonnul fits = (
  deserialize-serialize_m1 (download_m1 name) random memory (length-strncpy file_name_len name),
  c_string-strncpy file_name_len name nonnul fits,
)

-- The packet's bytes, their code and the name in them.
pub request_bytes :
    (name random memory : Bytes)
    → NonNul name
    → length name < file_name_len
    → length memory ≡ max_packet_size
    → length random + get_message_size_m1 ≡ max_packet_size
    → (plain : Bytes) × (serialize_m1 (download_m1 name) (some random) memory ≡ some plain)
      × (length plain ≡ max_packet_size)
      × (byte_of plain ≡ message_code download_request)
      × (c_string (deserialize_m1 plain).filename ≡ some name)
unfolding serialize_m1 download_m1 deserialize_m1
request_bytes name random memory nonnul fits hm hr =
    let field : Bytes = strncpy file_name_len name in
    let size : length field ≡ file_name_len = length-strncpy file_name_len name in
    let code = message_code download_request ∷ [] in
    let plain = (put_all (code ∷ field ∷ random ∷ []) (start memory)).buffer in
    (
      plain,
      refl,
      length-put_all (code ∷ field ∷ random ∷ []) memory (omega arith) ∙ hm,
      sym (first_byte plain)
          ∙ ap byte_of (read_at-put_all [] code (field ∷ random ∷ []) memory 0 1 refl refl),
      ap c_string (read_at-put_all (code ∷ []) field (random ∷ []) memory 1 35 refl size)
          ∙ c_string-strncpy file_name_len name nonnul fits,
    )

deserialize-serialize_m2 :
    (m : DownloadM2) (memory : Bytes)
    → m.file_size < 2 ^ 32
    → deserialize_m2 (serialize_m2 m memory) ≡ m
unfolding serialize_m2 deserialize_m2
deserialize-serialize_m2 m memory hs =
    let code = m.message_code ∷ [] in
    let word = u32_bytes m.file_size in
    rw (
      read_at-put_all [] code (word ∷ []) memory 0 1 refl refl,
      read_at-put_all (code ∷ []) word [] memory 1 4 refl (length-u32_bytes m.file_size),
      u32_value-u32_bytes m.file_size hs,
    )

serialize_mi_lem :
    (m : DownloadMi) (n : ℕ) (memory : Bytes)
    → length m.file_chunk ≡ n
    → serialize_mi m n memory
      ≡ (put_all ((m.message_code ∷ []) ∷ m.file_chunk ∷ []) (start memory)).buffer
unfolding serialize_mi
serialize_mi_lem m n memory h =
    ap (λ c. (put_all ((m.message_code ∷ []) ∷ c ∷ []) (start memory)).buffer)
      (take_all n m.file_chunk (omega arith))

deserialize-serialize_mi :
    (m : DownloadMi) (n : ℕ) (memory : Bytes)
    → length m.file_chunk ≡ n
    → deserialize_mi (serialize_mi m n memory) n ≡ m
unfolding deserialize_mi
deserialize-serialize_mi m n memory h =
    let code = m.message_code ∷ [] in
    rw (serialize_mi_lem m n memory h) (
      rw (
        read_at-put_all [] code (m.file_chunk ∷ []) memory 0 1 refl refl,
        read_at-put_all (code ∷ []) m.file_chunk [] memory 1 n refl h,
      ))

module _ (n : ℕ) (buffer memory : Bytes) (enough : n ≤ length buffer) where
  length-file_chunk : length (download_mi buffer n).file_chunk ≡ n
  unfolding download_mi
  length-file_chunk = omega (arith, length-take n buffer)

  pub file_chunk_of : (download_mi buffer n).file_chunk ≡ take n buffer
  unfolding download_mi
  file_chunk_of = refl

  pub deserialize_mi-chunk :
      (deserialize_mi (serialize_mi (download_mi buffer n) n memory) n).file_chunk ≡ take n buffer
  deserialize_mi-chunk =
      ap (λ (d : DownloadMi). d.file_chunk)
        (deserialize-serialize_mi (download_mi buffer n) n memory length-file_chunk)
      ∙ file_chunk_of

  pub length-serialize_mi :
      length memory ≡ get_message_size_mi n
      → length (serialize_mi (download_mi buffer n) n memory) ≡ get_message_size_mi n
  length-serialize_mi h =
      let m = download_mi buffer n in
      rw (serialize_mi_lem m n memory length-file_chunk) (
        length-put_all ((m.message_code ∷ []) ∷ m.file_chunk ∷ []) memory
          (omega (arith, length-file_chunk))
        ∙ h)

-- The chunk message's bytes.
pub chunk_bytes :
    (n : ℕ) (buffer memory : Bytes)
    → n ≤ length buffer
    → length memory ≡ get_message_size_mi n
    → serialize_mi (download_mi buffer n) n memory ≡ message_code download_chunk ∷ take n buffer
unfolding serialize_mi download_mi
chunk_bytes n buffer memory enough h =
    let chunk = take n (take n buffer) in
    put_all-exact ((message_code download_chunk ∷ []) ∷ chunk ∷ []) memory
      (omega (arith, length-take n (take n buffer), length-take n buffer))
    ∙ ap (λ c. message_code download_chunk ∷ c)
        (append-nil chunk ∙ take_all n (take n buffer) (omega (arith, length-take n buffer)))

pub file_size-download_m2 : (code size : ℕ) → (download_m2 code size).file_size ≡ size % 2 ^ 32
unfolding download_m2
file_size-download_m2 code size = refl

pub length-serialize_m2 :
    (m : DownloadM2) (memory : Bytes)
    → length memory ≡ get_message_size_m2
    → length (serialize_m2 m memory) ≡ get_message_size_m2
unfolding serialize_m2
length-serialize_m2 m memory h =
    length-put_all ((m.message_code ∷ []) ∷ u32_bytes m.file_size ∷ []) memory
      (omega (arith, length-u32_bytes m.file_size))
    ∙ h

-- The answer to a download request and the chunks behind it arrive as the server made them: the
-- size modulo 2^32, and each chunk whole.
pub download_reply_arrives :
    (code size : ℕ) (chunk memory : Bytes)
    → (deserialize_m2 (serialize_m2 (download_m2 code size) memory) ≡ download_m2 code size)
      × ((deserialize_m2 (serialize_m2 (download_m2 code size) memory)).file_size ≡ size % 2 ^ 32)
      × ((deserialize_mi
            (serialize_mi (download_mi chunk (length chunk)) (length chunk) memory)
            (length chunk)).file_chunk
          ≡ chunk)
unfolding download_m2 download_mi
download_reply_arrives code size chunk memory =
    let m = download_m2 code size in
    let trip = deserialize-serialize_m2 m memory (omega arith) in
    let n = length chunk in
    let whole : take n chunk ≡ chunk = take_all n chunk (omega arith) in
    (
      trip,
      ap (λ (d : DownloadM2). d.file_size) trip,
      ap (λ (d : DownloadMi). d.file_chunk)
            (deserialize-serialize_mi (download_mi chunk n) n memory (ap length whole))
          ∙ whole,
    )
