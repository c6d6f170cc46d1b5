-- ===== src/Server/Uploading/Whole.antt =====
-- A whole upload, from the request to the last answer.
use secure_cloud_storage.Common.{
  ℕ, ◌^◌, ◌+◌, ◌*◌, ◌<◌, ◌≡◌, refl, sym, ap, ◌∙◌, true, none, some, List, [], ◌∷◌, ◌++◌, length,
  arith, append_assoc,
}
use secure_cloud_storage.Config.{max_counter_value}
use secure_cloud_storage.Codes.{return_code, success, result_code, ack}
use secure_cloud_storage.Memory.{Bytes, c_string, read_at}
use secure_cloud_storage.Memory.Words.{u32_value-lt}
use secure_cloud_storage.Messages.Upload.{deserialize_upload_m1}
use secure_cloud_storage.Files.{find, create, append_content, fresh_entry}
use secure_cloud_storage.Files.Laws.{find-created}
use secure_cloud_storage.Files.Manager.{write, closed}
use secure_cloud_storage.Files.Opening.{
  write_manager, write_manager-mode, write_manager-stream, write_manager-last, opened_to_write,
  is_file_present-none,
}
use secure_cloud_storage.World.{Platform, IsLawful, World, M, done, returned, ◌>>=◌}
use secure_cloud_storage.Server.Handlers.{
  receive_file, upload_chunks, answer_upload, upload_request, user_path,
}
use secure_cloud_storage.Steps.{increment_counter, open_for_writing}
use secure_cloud_storage.Steps.Counter.{increment_counter-done}
use secure_cloud_storage.Steps.Replies.{Tells, send_simple-done}
use secure_cloud_storage.Server.Storage.Uploads.{upload_request_lem}
use secure_cloud_storage.Steps.Pieces.{Piece, AllPieces, stream, contents}
use secure_cloud_storage.Server.Uploading.{upload_chunks-done}
use secure_cloud_storage.Server.Uploading.Sizes.{contents_size}

module _ (p : Platform) (works : (n : ℕ) → p.succeeds n ≡ true) (lawful : IsLawful p)
    (authenticate : M ℕ) (path : Bytes) (size : ℕ) (xs : List Piece) (rest : Bytes) where
  -- The world after the file has come in and before the last answer.
  abbrev filled : World → ℕ → World
  filled w k = record w {
    incoming = rest;
    counter = w.counter + length xs;
    disk = append_content path (contents xs) (create path w.disk);
    calls = k;
  }

  receive_file-done :
      (w : World)
      → find path w.disk ≡ none
      → AllPieces p w.session_key (write_manager path size) 0 w.counter xs
      → length xs ≡ (write_manager path size).chunks_num
      → w.incoming ≡ stream xs ++ rest
      → w.counter + length xs < max_counter_value
      → (k : ℕ) × (packet : Bytes) × (receive_file p authenticate path size w
          ≡ returned (return_code success) (record (filled w k) {
            counter = w.counter + length xs + 1;
            outgoing = w.outgoing ++ (packet ∷ []);
          }))
        × Tells p w.session_key (w.counter + length xs) 0 packet
  unfolding receive_file open_for_writing ◌>>=◌
  receive_file-done w free pieces count next room =
      let fm = write_manager path size in
      let u = record w { disk = create path w.disk; calls = w.calls + 1 } in
      let loop =
        upload_chunks-done p works lawful authenticate fm path (write_manager-mode path size)
          (write_manager-stream path size) (write_manager-last path size) xs 0 rest u pieces next
          (omega arith) in
      let all_chunks = ap (λ n. upload_chunks p authenticate n 0 fm u) (sym count) ∙ loop in
      let v = filled w (w.calls + 1 + 5 * length xs) in
      let (packet, sent, tells) = send_simple-done p works lawful authenticate 0 v (omega arith) in
      let x = record v { calls = v.calls + 10; outgoing = w.outgoing ++ (packet ∷ []) } in
      (
        v.calls + 10,
        packet,
        rw (works w.calls, opened_to_write path w.disk free)
            (rw (all_chunks, sent, increment_counter-done p authenticate x room)),
        tells,
      )

file_size-lt : (plaintext : Bytes) → (deserialize_upload_m1 plaintext).file_size < 2 ^ 53
unfolding deserialize_upload_m1
file_size-lt plaintext = omega (arith, u32_value-lt (read_at plaintext 36 4))

-- A new file's upload runs to the end while no call fails: from a counter with enough left, a request
-- for a name that is free, followed by exactly the announced chunks at the next counters, is
-- acknowledged, takes exactly these packets from the stream, leaves the file with the contents of
-- the chunks in order, of the announced size, acknowledges that too, and ends with the code for
-- success and the counter behind all the messages.
pub upload_completes :
    (p : Platform)
    → ((n : ℕ) → p.succeeds n ≡ true)
    → IsLawful p
    → (authenticate : M ℕ) (plaintext name : Bytes) (xs : List Piece) (rest : Bytes) (w : World)
    → let size = (deserialize_upload_m1 plaintext).file_size in
      let path = user_path w name in
      c_string (deserialize_upload_m1 plaintext).filename ≡ some name
      → find path w.disk ≡ none
      → AllPieces p w.session_key (write_manager path size) 0 (w.counter + 2) xs
      → length xs ≡ (write_manager path size).chunks_num
      → w.incoming ≡ stream xs ++ rest
      → w.counter + 2 + length xs < max_counter_value
      → (v : World) × (first : Bytes) × (last : Bytes) × (upload_request p authenticate plaintext w
          ≡ returned (return_code success) v)
        × (find path v.disk ≡ some (fresh_entry (contents xs)))
        × (length (contents xs) ≡ size)
        × (v.incoming ≡ rest)
        × (v.counter ≡ w.counter + length xs + 3)
        × (v.outgoing ≡ w.outgoing ++ (first ∷ last ∷ []))
        × Tells p w.session_key (w.counter + 1) (result_code ack) first
        × Tells p w.session_key (w.counter + 2 + length xs) (result_code ack) last
unfolding answer_upload ◌>>=◌
upload_completes p works lawful authenticate plaintext name xs rest w named free pieces count next
      room =
    let size = (deserialize_upload_m1 plaintext).file_size in
    let path = user_path w name in
    let w' = record w { counter = w.counter + 1 } in
    let (first, sent, tells) =
      send_simple-done p works lawful authenticate (result_code ack) w' (omega arith) in
    let u' = record w' { calls = w'.calls + 10; outgoing = w.outgoing ++ (first ∷ []) } in
    let u = record u' { counter = w.counter + 2 } in
    let counted : increment_counter p authenticate u' ≡ done tt u =
      increment_counter-done p authenticate u' (omega arith)
      ∙ ap (λ c. done tt (record u' { counter = c })) (omega arith) in
    let (k, last, received, tells') =
      receive_file-done p works lawful authenticate path size xs rest u free pieces count next
        (omega arith) in
    (
      record (filled p works lawful authenticate path size xs rest u k) {
        counter = u.counter + length xs + 1;
        outgoing = u.outgoing ++ (last ∷ []);
      },
      first,
      last,
      upload_request_lem p authenticate plaintext name w (omega arith) named
          ∙ (rw (is_file_present-none path w.disk free) (rw (sent, counted, received))),
      find-created path (contents xs) w.disk free,
      contents_size p w.session_key size (w.counter + 2)
          (record (closed write) { stream = some path }) xs (file_size-lt plaintext) pieces count,
      refl,
      omega arith,
      append_assoc w.outgoing (first ∷ []) (last ∷ []),
      tells,
      tells',
    )
