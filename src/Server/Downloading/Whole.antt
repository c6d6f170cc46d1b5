-- ===== src/Server/Downloading/Whole.antt =====
-- A whole download, from the request to the last chunk.
use secure_cloud_storage.Common.{
  ℕ, ◌+◌, ◌*◌, ◌^◌, ◌≤◌, ◌<◌, ◌≡◌, refl, sym, ap, ◌∙◌, true, false, some, List, [], ◌∷◌, ◌++◌,
  length, take, arith, ◌==◌, take_all, append_assoc,
}
use secure_cloud_storage.Config.{chunk_size, max_counter_value}
use secure_cloud_storage.Codes.{return_code, success, message_code, download_ack}
use secure_cloud_storage.Memory.{Bytes, c_string}
use secure_cloud_storage.Messages.Generic
use secure_cloud_storage.Messages.Download
use secure_cloud_storage.Messages.Download.{
  download_m2, serialize_m2, deserialize_m2, get_message_size_m2, download_reply_arrives,
  file_size-download_m2, length-serialize_m2,
}
use secure_cloud_storage.Files.{Disk, Entry, find}
use secure_cloud_storage.Files.Manager.{read, closed}
use secure_cloud_storage.World.{Platform, IsLawful, World, M, done, returned, ◌>>=◌, to_string-done}
use secure_cloud_storage.Server.Handlers.{
  downloadable, download_chunks, download_request, user_path,
}
use secure_cloud_storage.Steps.{increment_counter}
use secure_cloud_storage.Steps.Counter.{increment_counter-done}
use secure_cloud_storage.Channel.Exchange.{send_message_opens}
use secure_cloud_storage.Server.Downloading.{
  chunks_in, chunk_code, download_chunks-done, chunks_in-file,
}
use secure_cloud_storage.Files.Reading.{all_chunks}
use secure_cloud_storage.Files.Opening.{
  read_manager, read_manager-mode, read_manager-stream, read_manager-size, read_manager-at,
  opened_to_read,
}
use secure_cloud_storage.Steps.Pieces.{packets, length-packets}
use secure_cloud_storage.Steps.Pieces.Sending.{pieces, length-pieces}

-- The packet opens under the key, at the counter, to the answer with the code and the size.
pub record Announces (p : Platform) (key : Bytes) (counter code size : ℕ) (packet : Bytes)
    : Type 0 where
  pub plain : Bytes
  pub packet_size : length packet ≡ Generic.get_message_size get_message_size_m2
  pub at_counter : Generic.get_counter (Generic.deserialize packet get_message_size_m2) ≡ counter
  pub opens :
      let m = Generic.deserialize packet get_message_size_m2 in
      p.unseal key m.iv m.aad m.tag m.ciphertext ≡ some plain
  pub says : deserialize_m2 plain ≡ download_m2 code size

regular_file :
    (p : Platform) (authenticate : M ℕ) (path : Bytes) (disk : Disk) (e : Entry)
    → find path disk ≡ some e
    → e.regular ≡ true
    → e.symlink ≡ false
    → downloadable p authenticate path disk ≡ true
unfolding downloadable
regular_file p authenticate path disk e there regular direct =
    rw (there, downloadable, regular, direct)

-- The run with the packets that it sends.
pub download_request-done :
    (p : Platform) (works : (n : ℕ) → p.succeeds n ≡ true)
    → IsLawful p
    → (authenticate : M ℕ) (plaintext name : Bytes) (e : Entry) (w : World)
    → let path = user_path w name in
      let fm = read_manager path e.content in
      c_string (Download.deserialize_m1 plaintext).filename ≡ some name
      → find path w.disk ≡ some e
      → e.regular ≡ true
      → e.symlink ≡ false
      → 0 < length e.content
      → length e.content < 2 ^ 32
      → w.counter + 2 + fm.chunks_num ≤ max_counter_value
      → (v : World) × (first : Bytes) × (draw : ℕ) × (download_request p authenticate plaintext w
          ≡ returned (return_code success) v)
        × (v.outgoing
            ≡ w.outgoing
              ++ (first
                  ∷ packets (
                      pieces p works chunk_code fm path e fm.chunks_num 0 0 w.session_key
                        (w.counter + 2)
                        draw)))
        × Announces p w.session_key
            (w.counter + 1)
            (message_code download_ack)
            (length e.content)
            first
        × (v.counter ≡ w.counter + 2 + fm.chunks_num)
        × (v.disk ≡ w.disk)
        × (v.incoming ≡ w.incoming)
unfolding download_request ◌>>=◌
download_request-done p works lawful authenticate plaintext name e w named there regular direct
      some' small room =
    let path = user_path w name in
    let fm = read_manager path e.content in
    let size = fm.file_size in
    let field = (Download.deserialize_m1 plaintext).filename in
    let w1 = record w { counter = w.counter + 1 } in
    let m2 = download_m2 (message_code download_ack) size in
    let memory = p.fresh get_message_size_m2 in
    let buffer = serialize_m2 m2 memory in
    let fits = length-serialize_m2 m2 memory (lawful.fresh_size get_message_size_m2) in
    let whole : take get_message_size_m2 buffer ≡ buffer =
      take_all get_message_size_m2 buffer (omega arith) in
    let (first, sent, wire_size, at_counter, opens) =
      send_message_opens p works lawful buffer get_message_size_m2 w1 (ap length whole ∙ fits)
        (omega arith) (omega arith) in
    let u' = record w1 { calls = w.calls + 9; outgoing = w.outgoing ++ (first ∷ []) } in
    let u = record u' { counter = w.counter + 2 } in
    let counted : increment_counter p authenticate u' ≡ done tt u =
      increment_counter-done p authenticate u' (omega arith)
      ∙ ap (λ c. done tt (record u' { counter = c })) (omega arith) in
    let not_empty : (m2.file_size == 0) ≡ false = ground (
      arith,
      file_size-download_m2 (message_code download_ack) size,
      read_manager-size path e.content,
    ) in
    let (total, last) =
      all_chunks (length e.content) (record (closed read) { stream = some path }) some'
        (omega arith) in
    let xs =
      pieces p works chunk_code fm path e fm.chunks_num 0 0 u.session_key u.counter u.calls in
    let out =
      download_chunks-done p works lawful authenticate fm path e (read_manager-mode path e.content)
        (read_manager-stream path e.content) last fm.chunks_num 0 0 (p.fresh chunk_size) u
        (omega arith) there total (omega (arith, lawful.fresh_size chunk_size)) (omega arith) in
    let out' =
      ap (λ f. download_chunks p authenticate fm.chunks_num 0 f (p.fresh chunk_size) u)
        (sym (read_manager-at path e))
      ∙ out in
    (
      record u {
        outgoing = u.outgoing ++ packets xs;
        counter = u.counter + fm.chunks_num;
        calls = u.calls + 9 * fm.chunks_num;
      },
      first,
      u.calls,
      rw
          (
            increment_counter-done p authenticate w (omega arith),
            to_string-done field name w1 named,
            opened_to_read path w.disk e there,
            regular_file p authenticate path w.disk e there regular direct,
          )
          (rw (sent, counted, not_empty, out') refl),
      append_assoc w.outgoing (first ∷ []) (packets xs),
      record {
        plain = buffer;
        packet_size = wire_size;
        at_counter = at_counter;
        opens = opens ∙ ap some whole;
        says =
            (download_reply_arrives (message_code download_ack) size [] memory).0
            ∙ ap (download_m2 (message_code download_ack)) (read_manager-size path e.content);
      },
      refl,
      refl,
      refl,
    )

-- A download of a regular file runs to the end while no call fails: from a counter with enough
-- left, a request for a file of at least one byte and less than 4 GB is answered by its size and
-- then by packets from which a reader with the session key, who takes each at the next counter,
-- gets the file's content exactly. No file changes, and the result is the code for success.
pub download_completes :
    (p : Platform)
    → ((n : ℕ) → p.succeeds n ≡ true)
    → IsLawful p
    → (authenticate : M ℕ) (plaintext name : Bytes) (e : Entry) (w : World)
    → let path = user_path w name in
      let fm = read_manager path e.content in
      c_string (Download.deserialize_m1 plaintext).filename ≡ some name
      → find path w.disk ≡ some e
      → e.regular ≡ true
      → e.symlink ≡ false
      → 0 < length e.content
      → length e.content < 2 ^ 32
      → w.counter + 2 + fm.chunks_num ≤ max_counter_value
      → (v : World) × (first : Bytes) × (packets : List Bytes) × (download_request p authenticate
            plaintext w
          ≡ returned (return_code success) v)
        × (v.outgoing ≡ w.outgoing ++ (first ∷ packets))
        × Announces p w.session_key
            (w.counter + 1)
            (message_code download_ack)
            (length e.content)
            first
        × (chunks_in p w.session_key fm 0 (w.counter + 2) packets ≡ some e.content)
        × (length packets ≡ fm.chunks_num)
        × (v.counter ≡ w.counter + 2 + fm.chunks_num)
        × (v.disk ≡ w.disk)
download_completes p works lawful authenticate plaintext name e w named there regular direct some'
      small room =
    let path = user_path w name in
    let fm = read_manager path e.content in
    let (v, first, draw, ran, out, announces, counted, kept, same) =
      download_request-done p works lawful authenticate plaintext name e w named there regular
        direct some' small room in
    let xs =
      pieces p works chunk_code fm path e fm.chunks_num 0 0 w.session_key (w.counter + 2) draw in
    let (total, last) =
      all_chunks (length e.content) (record (closed read) { stream = some path }) some'
        (omega arith) in
    (
      v,
      first,
      packets xs,
      ran,
      out,
      announces,
      chunks_in-file p works lawful fm path e w.session_key (w.counter + 2) draw total room,
      length-packets xs
          ∙ length-pieces p works chunk_code fm path e fm.chunks_num 0 0 w.session_key
              (w.counter + 2) draw,
      counted,
      kept,
    )
