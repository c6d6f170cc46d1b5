-- ===== src/Config.antt =====
-- The constants of src/utils/Config.h.
use secure_cloud_storage.Common.{ℕ}

abbrev pub file_name_len : ℕ
file_name_len = 35

abbrev pub username_len : ℕ
username_len = 35

abbrev pub max_packet_size : ℕ
max_packet_size = 71

abbrev pub aes_tag_len : ℕ
aes_tag_len = 16

abbrev pub aes_key_len : ℕ
aes_key_len = 16

abbrev pub aad_len : ℕ
aad_len = 4

abbrev pub iv_len : ℕ
iv_len = 12

abbrev pub chunk_size : ℕ
chunk_size = 1000000

abbrev pub max_counter_value : ℕ
max_counter_value = 0xffffffff

abbrev pub max_file_size : ℕ
max_file_size = 4000000000
