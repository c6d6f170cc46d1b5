-- ===== src/Client/Uploading.antt =====
-- `Client::uploadRequest` of src/modules/Client.cpp, when the server takes the file.
pub mod Whole
use secure_cloud_storage.Common.{
  ℕ, ◌+◌, ◌-◌, ◌*◌, ◌^◌, ◌≤◌, ◌<◌, ◌≡◌, refl, sym, ap, ◌∙◌, true, false, not, ◌||◌, some, List, [],
  ◌∷◌, ◌++◌, length, take, arith, ◌==◌, ltb, append_assoc, take_all, length-take,
}
use secure_cloud_storage.Config.{chunk_size, max_packet_size, max_counter_value, max_file_size}
use secure_cloud_storage.Codes.{
  return_code, success, result_code, ack, nack, message_code, upload_chunk,
}
use secure_cloud_storage.Memory.{Bytes, memcpy}
use secure_cloud_storage.Memory.Laws.{NonNul}
use secure_cloud_storage.Messages.Generic.{generic}
use secure_cloud_storage.Messages.Simple
use secure_cloud_storage.Messages.Upload.{
  upload_m1, serialize_upload_m1, upload_m1_arrives, upload_mi, serialize_upload_mi,
  get_size_upload_mi, chunk_bytes,
}
use secure_cloud_storage.Files.{Disk, Entry, find}
use secure_cloud_storage.Files.Manager.{FileManager, read, read_chunk, closed}
use secure_cloud_storage.Files.Reading.{
  size_at, at, all_chunks, next_bytes, length-next_bytes, read_chunk-some, next_bytes-buffer,
}
use secure_cloud_storage.Files.Opening.{
  read_manager, read_manager-mode, read_manager-stream, read_manager-size, read_manager-at,
  opened_to_read, is_file_present-some,
}
use secure_cloud_storage.World.{Platform, IsLawful, World, M, done, returned, require, ◌>>=◌}
use secure_cloud_storage.Channel.{random, send_message}
use secure_cloud_storage.Channel.Exchange.{sealed, on_wire, send_message-done, packet_for}
use secure_cloud_storage.Steps.{increment_counter}
use secure_cloud_storage.Steps.Counter.{increment_counter-done, counted_to}
use secure_cloud_storage.Steps.Replies.{Tells}
use secure_cloud_storage.Steps.Pieces.{Piece, packets}
use secure_cloud_storage.Steps.Pieces.Sending.{
  piece_of, pieces, send_message-piece, Sends, send_all,
}
use secure_cloud_storage.Client.Requests.{local_path, next_chunk, send_chunks, upload_request}
use secure_cloud_storage.Client.Replies.{receive_reply-Tells}

abbrev pub chunk_code : ℕ
chunk_code = message_code upload_chunk

next_chunk-some :
    (fm : FileManager) (buffer : Bytes) (size : ℕ) (disk : Disk) (r : Bytes × FileManager)
    → read_chunk fm buffer size disk ≡ some r
    → next_chunk fm buffer size disk ≡ r
unfolding next_chunk
next_chunk-some fm buffer size disk r h = rw (h, next_chunk)

module _ (p : Platform) (works : (n : ℕ) → p.succeeds n ≡ true) (lawful : IsLawful p)
    (authenticate : M ℕ) where
  module _ (fm : FileManager) (path : Bytes) (e : Entry) (mode : fm.open_mode ≡ read)
      (open_at : fm.stream ≡ some path) where
    -- One round: the next part of the file goes out, at the counter, and the counter goes up.
    pub send_chunks-Sends : Sends p works chunk_code fm path e (send_chunks p authenticate)
    unfolding send_chunks ◌>>=◌
    send_chunks-Sends left i k buffer w there enough fits bound low =
        let size = size_at fm i in
        let got = next_bytes fm e i k in
        let buffer' = memcpy buffer 0 got in
        let memory = p.fresh (get_size_upload_mi size) in
        let (front, same) = next_bytes-buffer fm path e i k buffer enough fits in
        let made : serialize_upload_mi (upload_mi buffer' size) memory ≡ chunk_code ∷ got =
          chunk_bytes size buffer' memory (omega arith)
            (lawful.fresh_size (get_size_upload_mi size))
          ∙ ap (λ c. chunk_code ∷ c) front in
        let sent =
          send_message-piece p works chunk_code fm path e lawful
            (serialize_upload_mi (upload_mi buffer' size) memory) got size w made
            (length-next_bytes fm path e i k enough) bound in
        let u = record w {
          calls = w.calls + 9;
          outgoing =
              w.outgoing
              ++ ((piece_of p works chunk_code fm path e w.session_key w.counter w.calls got).packet
                  ∷ []);
        } in
        rw (
          next_chunk-some (at fm k) buffer size w.disk (buffer', at fm (k + size))
              (read_chunk-some fm path e i k buffer w.disk mode open_at there enough),
          sent,
          increment_counter-done p authenticate u low,
        )

  -- All rounds: the pieces of the file go out.
  pub send_chunks-done :
      (path : Bytes) (e : Entry) (w : World)
      → let fm = read_manager path e.content in
        find path w.disk ≡ some e
        → 0 < length e.content
        → length e.content < 2 ^ 53
        → w.counter + fm.chunks_num ≤ max_counter_value
        → let xs =
            pieces p works chunk_code fm path e fm.chunks_num 0 0 w.session_key w.counter w.calls in
          send_chunks p authenticate fm.chunks_num 0 fm (p.fresh chunk_size) w
          ≡ done tt (record w {
            outgoing = w.outgoing ++ packets xs;
            counter = w.counter + fm.chunks_num;
            calls = w.calls + 9 * fm.chunks_num;
          })
  unfolding send_chunks
  send_chunks-done path e w there some' small room =
      let fm = read_manager path e.content in
      let (all, last) =
        all_chunks (length e.content) (record (closed read) { stream = some path }) some' small in
      ap (λ f. send_chunks p authenticate fm.chunks_num 0 f (p.fresh chunk_size) w)
        (sym (read_manager-at path e))
      ∙ send_all p works chunk_code fm path e (send_chunks p authenticate) (λ i f buffer w. refl)
          (send_chunks-Sends fm path e (read_manager-mode path e.content)
            (read_manager-stream path e.content))
          last fm.chunks_num 0 0 (p.fresh chunk_size) w (omega arith) there all
          (omega (arith, lawful.fresh_size chunk_size)) room
