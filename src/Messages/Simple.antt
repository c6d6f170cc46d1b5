-- ===== src/Messages/Simple.antt =====
-- src/messages/SimpleMessage.cpp
use secure_cloud_storage.Common.{ℕ, ◌+◌, ◌≡◌, refl, sym, ◌∙◌, [], ◌∷◌, length, arith}
use secure_cloud_storage.Config.{max_packet_size}
use secure_cloud_storage.Memory.{Bytes, read_at, start, put_all}
use secure_cloud_storage.Memory.Laws.{read_at-put_all, length-put_all}

pub record SimpleMessage : Type 0 where
  pub message_code : ℕ

-- The first of the bytes that `memcpy` filled.
abbrev pub byte_of : Bytes → ℕ
byte_of [] = 0
byte_of (b ∷ _) = b

pub first_byte : (s : Bytes) → byte_of (read_at s 0 1) ≡ byte_of s
unfolding read_at
first_byte [] = refl
first_byte (c ∷ s) = refl

-- `random` is what fills the buffer behind the code.
unfoldable pub serialize : SimpleMessage → Bytes → Bytes → Bytes
serialize m random memory = (put_all ((m.message_code ∷ []) ∷ random ∷ []) (start memory)).buffer

unfoldable pub deserialize : Bytes → SimpleMessage
deserialize buffer = record { message_code = byte_of (read_at buffer 0 1) }

abbrev pub get_message_size : ℕ
get_message_size = max_packet_size

-- A simple message is read back from its buffer, whatever the padding, and the buffer keeps the
-- size of a packet.
pub simple_arrives :
    (m : SimpleMessage) (random memory : Bytes)
    → length memory ≡ max_packet_size
    → length random + 1 ≡ max_packet_size
    → (deserialize (serialize m random memory) ≡ m)
      × (length (serialize m random memory) ≡ max_packet_size)
unfolding serialize deserialize
simple_arrives m random memory hm hr =
    let fields = (m.message_code ∷ []) ∷ random ∷ [] in
    (
      rw (read_at-put_all [] (m.message_code ∷ []) (random ∷ []) memory 0 1 refl refl),
      length-put_all fields memory (omega arith) ∙ hm,
    )

-- The code can be read as the first byte.
pub first_is_code :
    (plain : Bytes) (code : ℕ) → (deserialize plain).message_code ≡ code → byte_of plain ≡ code
unfolding deserialize
first_is_code plain code says = sym (first_byte plain) ∙ says
