-- ===== src/Memory.antt =====
-- Byte buffers as the message classes use them: `memcpy` at a running position, fixed character
-- arrays filled by `strncpy` and read as C strings, and `uint32_t` in host (little-endian) and
-- network byte order. A byte is a number; every buffer is the list of its bytes.
use secure_cloud_storage.Common.{
  ℕ, zero, suc, ◌+◌, ◌-◌, ◌*◌, ◌/◌, ◌%◌, Bool, true, false, Option, none, some, List, [], ◌∷◌, ◌++◌,
  length, take, drop, replicate, ◌==◌, if◌then◌else◌,
}
pub mod Laws
pub mod Words

abbrev pub Bytes : Type 0
Bytes = List ℕ

-- `memcpy(buffer + position, source, length source)`
unfoldable pub memcpy : Bytes → ℕ → Bytes → Bytes
memcpy buffer position source =
    take position buffer ++ (source ++ drop (position + length source) buffer)

-- `memcpy(target, buffer + position, n)`
unfoldable pub read_at : Bytes → ℕ → ℕ → Bytes
read_at buffer position n = take n (drop position buffer)

-- A buffer under construction with its `current_position`.
pub record Cursor : Type 0 where
  pub buffer : Bytes
  pub position : ℕ

abbrev pub start : Bytes → Cursor
start buffer = record { buffer = buffer; position = 0 }

-- `memcpy(buffer + position, field, n); position += n;`
unfoldable pub put : Bytes → Cursor → Cursor
unfolding memcpy
put field c = record {
  buffer = memcpy c.buffer c.position field;
  position = c.position + length field;
}

-- The fields of a message, copied one behind another.
unfoldable pub put_all : List Bytes → Cursor → Cursor
put_all [] c = c
put_all (field ∷ fields) c = put_all fields (put field c)

-- `strncpy(field, source, n)`: at most `n` characters up to the first NUL, the rest NULs.
unfoldable pub strncpy : ℕ → Bytes → Bytes
strncpy zero source = []
strncpy (suc n) [] = 0 ∷ strncpy n []
strncpy (suc n) (c ∷ source) = if c == 0 then replicate (suc n) 0 else c ∷ strncpy n source

-- `(string) field`: the characters before the first NUL. Without a NUL the read leaves the array,
-- which is undefined behaviour.
unfoldable pub c_string : Bytes → Option Bytes
c_string [] = none
c_string (c ∷ field) =
    let rest = c_string field in
    if c == 0 then some [] else elim rest [ none ↦ none | some s ↦ some (c ∷ s) ]

-- The bytes of a `uint32_t` in memory on a little-endian host, and the value of four such bytes.
unfoldable pub u32_bytes : ℕ → Bytes
u32_bytes n = (n % 256) ∷ (n / 256 % 256) ∷ (n / 65536 % 256) ∷ (n / 16777216 % 256) ∷ []

unfoldable pub u32_value : Bytes → ℕ
u32_value (a ∷ b ∷ c ∷ d ∷ []) = (a + 256 * b + 65536 * c + 16777216 * d) % 4294967296
u32_value _ = 0

-- `htonl` and `ntohl` of such a host swap the four bytes.
unfoldable pub htonl : ℕ → ℕ
htonl n =
    n / 16777216 % 256 + 256 * (n / 65536 % 256) + 65536 * (n / 256 % 256) + 16777216 * (n % 256)

abbrev pub ntohl : ℕ → ℕ
ntohl = htonl
