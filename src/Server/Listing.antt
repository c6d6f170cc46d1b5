-- ===== src/Server/Listing.antt =====
-- `Server::listRequest` of src/modules/Server.cpp.
use secure_cloud_storage.Common.{
  ℕ, ◌+◌, ◌%◌, ◌^◌, ◌<◌, ◌≡◌, ◌≢◌, refl, sym, ap, ◌∙◌, true, false, some, [], ◌∷◌, ◌++◌, length,
  take, arith, ◌==◌, eq_bytes, eq_bytes_iff, eq_bytes_refl, Bool-cases, inl, inr, if◌then◌else◌,
  take_all, append_assoc, length-append,
}
use secure_cloud_storage.Config.{max_packet_size, max_counter_value}
use secure_cloud_storage.Codes.{return_code, success, wrong_path, message_code, list_response}
use secure_cloud_storage.Memory.{Bytes}
use secure_cloud_storage.Messages.Generic
use secure_cloud_storage.Messages.Listing
use secure_cloud_storage.Messages.Listing.{ListM3, list_m2, list_m3, serialize_m2, serialize_m3}
use secure_cloud_storage.Files.{codes}
use secure_cloud_storage.Files.Listing.{get_files_list, entry_names, known, with_commas, pop_back}
use secure_cloud_storage.World.{Platform, IsLawful, World, M, returned, require, ◌>>=◌}
use secure_cloud_storage.Server.Handlers.{list_request, user_directory}
use secure_cloud_storage.Steps.Counter.{increment_counter-done, counted_to}
use secure_cloud_storage.Channel.Exchange.{send_message_opens}

-- The packet opens under the key, at the counter, to a plaintext of the length.
pub record Carries (p : Platform) (key : Bytes) (counter len : ℕ) (plain packet : Bytes)
    : Type 0 where
  pub size : length packet ≡ Generic.get_message_size len
  pub at_counter : Generic.get_counter (Generic.deserialize packet len) ≡ counter
  pub opens :
      let m = Generic.deserialize packet len in
      p.unseal key m.iv m.aad m.tag m.ciphertext ≡ some plain

abbrev list_of : World → Bytes
list_of w = get_files_list w.directories (user_directory w) w.disk

not_error : (text : Bytes) → text ≢ codes "error" → eq_bytes text (codes "error") ≡ false
not_error text other = elim (Bool-cases (eq_bytes text (codes "error"))) [
  | inl same ↦ absurd (other ((eq_bytes_iff text (codes "error")).0 same))
  | inr differs ↦ differs
]

announced :
    (k : ℕ)
    → k + 1 < 2 ^ 32
    → 0 < k
    → (if k % 2 ^ 32 == 0 then k % 2 ^ 32 else (k % 2 ^ 32 + 1) % 2 ^ 32) ≡ k + 1
announced k small some' = ground arith

-- A directory whose only file is called `error` is taken for one that is not there: the list request
-- ends with the code for a wrong path, and nothing is sent.
pub list_error_name :
    (p : Platform) (authenticate : M ℕ) (w : World)
    → w.counter < max_counter_value
    → known w.directories (user_directory w) ≡ true
    → entry_names (user_directory w) w.disk ≡ codes "error" ∷ []
    → list_request p authenticate w
      ≡ returned (return_code wrong_path) (record w { counter = w.counter + 1 })
unfolding list_request get_files_list with_commas pop_back require ◌>>=◌
list_error_name p authenticate w low there only =
    rw (increment_counter-done p authenticate w low, there, only, eq_bytes_refl (codes "error"))
      refl

m3_arrives :
    (files memory : Bytes) (n : ℕ)
    → length files ≡ n
    → n < 2 ^ 32
    → length memory ≡ Listing.get_message_size_m3 n
    → let sent = serialize_m3 (list_m3 n files) n memory in
      ((Listing.deserialize_m3 sent n).file_list ≡ files)
      × ((Listing.deserialize_m3 sent n).message_code ≡ message_code list_response)
      × (length sent ≡ Listing.get_message_size_m3 n)
unfolding list_m3
m3_arrives files memory n h small fits =
    let (m2, m3, list, size) =
      Listing.list_reply_arrives files [] memory (omega arith)
        (fits ∙ ap Listing.get_message_size_m3 (sym h)) in
    rw (← h) (list, ap (λ (m : ListM3). m.message_code) m3, size)

m2_size : (n : ℕ) → (list_m2 n).list_size ≡ n
unfolding list_m2
m2_size n = refl

-- A list request is answered, while no call fails, in two messages at consecutive counters: the size
-- of the list with its NUL, and the list itself with its NUL. This holds for a list that is neither
-- empty nor the text `error`, and whose message is shorter than 2^31 bytes, so that its length is not
-- negative as `int`. Nothing is received, and no file changes.
pub list_answers :
    (p : Platform)
    → ((n : ℕ) → p.succeeds n ≡ true)
    → IsLawful p
    → (authenticate : M ℕ) (w : World) → w.counter + 2 < max_counter_value
    → let text = get_files_list w.directories (user_directory w) w.disk in
      text ≢ codes "error"
      → 0 < length text
      → length text + 2 < 2 ^ 31
      → (v : World) × (first : Bytes) × (second : Bytes) × (size : Bytes) × (list : Bytes)
        × (list_request p authenticate w ≡ returned (return_code success) v)
        × (v.outgoing ≡ w.outgoing ++ (first ∷ second ∷ []))
        × Carries p w.session_key (w.counter + 1) Listing.get_message_size_m2 size first
        × (Listing.deserialize_m2 size ≡ list_m2 (length text + 1))
        × Carries p w.session_key
            (w.counter + 2)
            (Listing.get_message_size_m3 (length text + 1))
            list
            second
        × ((Listing.deserialize_m3 list (length text + 1)).file_list ≡ text ++ (0 ∷ []))
        × ((Listing.deserialize_m3 list (length text + 1)).message_code
            ≡ message_code list_response)
        × (v.incoming ≡ w.incoming)
        × (v.counter ≡ w.counter + 3)
        × (v.disk ≡ w.disk)
unfolding list_request require ◌>>=◌
list_answers p works lawful authenticate w low other some' small =
    let text = list_of w in
    let n = length text + 1 in
    let w1 = record w { counter = w.counter + 1 } in
    let m2 = list_m2 n in
    let memory = p.fresh max_packet_size in
    let buffer = serialize_m2 m2 memory in
    let (size_back, size_len) = Listing.deserialize_m2-front m2 memory (omega (arith, m2_size n)) in
    let (first, sent, wire, at_counter, opens) =
      send_message_opens p works lawful buffer Listing.get_message_size_m2 w1 size_len (omega arith)
        (omega arith) in
    let u1 = record w1 { calls = w.calls + 9; outgoing = w.outgoing ++ (first ∷ []) } in
    let u2 = record u1 { counter = w.counter + 2 } in
    let len = Listing.get_message_size_m3 n in
    let memory' = p.fresh len in
    let buffer' = serialize_m3 (list_m3 n (text ++ (0 ∷ []))) n memory' in
    let (list_back, list_code, list_len) =
      m3_arrives (text ++ (0 ∷ [])) memory' n (length-append text (0 ∷ [])) (omega arith)
        (lawful.fresh_size len) in
    let whole : take len buffer' ≡ buffer' = take_all len buffer' (omega arith) in
    let (second, sent', wire', at_counter', opens') =
      send_message_opens p works lawful buffer' len u2 (ap length whole ∙ list_len) (omega arith)
        (omega arith) in
    let u3 = record u2 { calls = u2.calls + 9; outgoing = u2.outgoing ++ (second ∷ []) } in
    let never : (n == 0) ≡ false = ground arith in
    (
      record u3 { counter = w.counter + 3 },
      first,
      second,
      take Listing.get_message_size_m2 buffer,
      take len buffer',
      rw
          (
            increment_counter-done p authenticate w (omega arith),
            not_error text other,
            announced (length text) (omega arith) some',
          )
          (rw
            (sent, counted_to p authenticate u1 (w.counter + 2) (omega arith) (omega arith), never)
            (rw (sent', counted_to p authenticate u3 (w.counter + 3) low (omega arith)) refl)),
      append_assoc w.outgoing (first ∷ []) (second ∷ []),
      record { size = wire; at_counter = at_counter; opens = opens },
      size_back,
      record { size = wire'; at_counter = at_counter'; opens = opens' },
      rw whole list_back,
      rw whole list_code,
      refl,
      refl,
      refl,
    )

pub Carries-moved :
    (p : Platform) (key key' : Bytes) (counter counter' len : ℕ) (plain packet : Bytes)
    → key ≡ key'
    → counter ≡ counter'
    → Carries p key counter len plain packet
    → Carries p key' counter' len plain packet
Carries-moved p key key' counter counter' len plain packet same_key same_counter carries =
    rw (← same_key, ← same_counter) carries
