-- ===== src/Client/Downloading/Whole.antt =====
-- A whole download on the client's side, from the request to the last chunk.
use secure_cloud_storage.Common.{
  ℕ, ◌+◌, ◌-◌, ◌*◌, ◌^◌, ◌≤◌, ◌<◌, ◌≡◌, refl, sym, ap, ◌∙◌, true, none, some, List, [], ◌∷◌, ◌++◌,
  length, arith,
}
use secure_cloud_storage.Config.{max_packet_size, max_counter_value}
use secure_cloud_storage.Codes.{return_code, success, message_code, download_ack}
use secure_cloud_storage.Memory.{Bytes}
use secure_cloud_storage.Messages.Generic.{generic}
use secure_cloud_storage.Messages.Download.{
  DownloadM2, download_m1, serialize_m1, download_m2, deserialize_m2, get_message_size_m2,
  file_size-download_m2,
}
use secure_cloud_storage.Files.{find, create, append_content}
use secure_cloud_storage.Files.Manager.{write, closed}
use secure_cloud_storage.Files.Opening.{
  write_manager, write_manager-mode, write_manager-stream, write_manager-last, opened_to_write,
  is_file_present-none,
}
use secure_cloud_storage.World.{Platform, IsLawful, World, M, done, returned, require, ◌>>=◌}
use secure_cloud_storage.Channel.{random, attempts}
use secure_cloud_storage.Channel.Exchange.{sealed, on_wire, send_message-whole}
use secure_cloud_storage.Steps.{open_for_writing}
use secure_cloud_storage.Steps.Counter.{counted_to}
use secure_cloud_storage.Steps.Pieces.{Piece, AllPieces, AllCoded, stream, contents}
use secure_cloud_storage.Server.Downloading.Whole.{Announces}
use secure_cloud_storage.Client.Requests.{
  local_path, padding, filled, save_chunks, download_request,
}
use secure_cloud_storage.Client.Replies.{receive_reply-done}
use secure_cloud_storage.Client.Downloading.{IsChunk, save_chunks-done}

download_m2_code : (code size : ℕ) → (download_m2 code size).message_code ≡ code
unfolding download_m2
download_m2_code code size = refl

module _ (p : Platform) (works : (n : ℕ) → p.succeeds n ≡ true) (lawful : IsLawful p)
    (authenticate : M ℕ) where
  pub padding-done :
      (len : ℕ) (w : World)
      → padding p authenticate len w
        ≡ done (some (p.rand_bytes w.calls len)) (record w { calls = w.calls + 1 + 1 })
  unfolding padding random attempts ◌>>=◌
  padding-done len w = rw (works (w.calls + 1)) refl

  open_for_writing-done :
      (path : Bytes) (w : World)
      → find path w.disk ≡ none
      → open_for_writing p authenticate path w
        ≡ done
            (record (closed write) { stream = some path })
            (record w { disk = create path w.disk; calls = w.calls + 1 })
  unfolding open_for_writing
  open_for_writing-done path w free = rw (works w.calls, opened_to_write path w.disk free)

  module _ (name : Bytes) where
    -- The request's packet with the given plaintext.
    abbrev pub request_packet : World → Bytes → Bytes
    request_packet w plain =
        on_wire p works (sealed p works w.session_key (generic w.counter) plain (w.calls + 1 + 1))

    abbrev after : World → ℕ → World
    after w n = record w {
      counter = w.counter + 2 + n;
      calls = w.calls + 1 + 1 + 9 + 5 + 1 + 5 * n;
    }

    -- The client's download, given the answer and the chunks that it waits for.
    pub download_request-done :
        (first rest plain : Bytes) (size : ℕ) (xs : List Piece) (w : World)
        → let path = local_path name in
          find path w.disk ≡ none
          → serialize_m1
              (download_m1 name)
              (some (p.rand_bytes w.calls (max_packet_size - 36)))
              (p.fresh max_packet_size)
            ≡ some plain
          → length plain ≡ max_packet_size
          → size < 2 ^ 32
          → Announces p w.session_key (w.counter + 1) (message_code download_ack) size first
          → AllPieces p w.session_key (write_manager path size) 0 (w.counter + 2) xs
          → AllCoded IsChunk xs
          → length xs ≡ (write_manager path size).chunks_num
          → w.incoming ≡ first ++ (stream xs ++ rest)
          → w.counter + 2 + length xs ≤ max_counter_value
          → download_request p authenticate name w
            ≡ returned (return_code success) (record (after w (length xs)) {
              incoming = rest;
              disk = append_content path (contents xs) (create path w.disk);
              outgoing = w.outgoing ++ (request_packet w plain ∷ []);
            })
    unfolding download_request filled require ◌>>=◌
    download_request-done first rest plain size xs w free made total small announces pieces coded
          count next room =
        let path = local_path name in
        let fm = write_manager path size in
        let u1 = record w { calls = w.calls + 1 + 1 } in
        let sent = send_message-whole p works lawful plain max_packet_size u1 total (omega arith) in
        let u2 = record u1 {
          calls = w.calls + 1 + 1 + 9;
          outgoing = w.outgoing ++ (request_packet w plain ∷ []);
        } in
        let u3 = record u2 { counter = w.counter + 1 } in
        let replied =
          receive_reply-done p works lawful authenticate get_message_size_m2 first
            (stream xs ++ rest) announces.plain u3 next announces.packet_size (omega arith)
            announces.at_counter announces.opens in
        let u4 = record u3 { incoming = stream xs ++ rest; calls = w.calls + 1 + 1 + 9 + 5 } in
        let u5 = record u4 { counter = w.counter + 2 } in
        let code_eq : (deserialize_m2 announces.plain).message_code ≡ message_code download_ack =
          ap (λ (m : DownloadM2). m.message_code) announces.says
          ∙ download_m2_code (message_code download_ack) size in
        let size_eq : (deserialize_m2 announces.plain).file_size ≡ size =
          ap (λ (m : DownloadM2). m.file_size) announces.says
          ∙ file_size-download_m2 (message_code download_ack) size
          ∙ omega arith in
        let u6 = record u5 { disk = create path w.disk; calls = u5.calls + 1 } in
        let saved =
          ap (λ n. save_chunks p authenticate n 0 fm u6) (sym count)
          ∙ save_chunks-done p works lawful authenticate fm path (write_manager-mode path size)
              (write_manager-stream path size) (write_manager-last path size) xs rest u6 pieces
              coded refl room in
        rw
          (
            is_file_present-none path w.disk free,
            padding-done (max_packet_size - 36) w,
            made,
            sent,
            counted_to p authenticate u2 (w.counter + 1) (omega arith) refl,
            replied,
            counted_to p authenticate u4 (w.counter + 2) (omega arith) (omega arith),
            code_eq,
            open_for_writing-done path u5 free,
            size_eq,
            saved,
          )
          refl
