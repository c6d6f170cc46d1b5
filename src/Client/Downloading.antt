-- ===== src/Client/Downloading.antt =====
-- `Client::downloadRequest` of src/modules/Client.cpp, when the server has the file.
pub mod Whole
use secure_cloud_storage.Common.{
  ℕ, suc, ◌+◌, ◌*◌, ◌≤◌, ◌<◌, ◌≡◌, refl, sym, ◌∙◌, true, some, List, [], ◌∷◌, ◌++◌, length, arith,
  ◌==◌, ==_iff, take_all,
}
use secure_cloud_storage.Config.{chunk_size, max_counter_value}
use secure_cloud_storage.Codes.{message_code, download_chunk}
use secure_cloud_storage.Memory.{Bytes, read_at}
use secure_cloud_storage.Messages.Download.{deserialize_mi}
use secure_cloud_storage.Files.{append_content}
use secure_cloud_storage.Files.Manager.{FileManager, write}
use secure_cloud_storage.Files.Reading.{size_at, size_at_le}
use secure_cloud_storage.World.{Platform, IsLawful, World, M, done, require, ◌>>=◌}
use secure_cloud_storage.Steps.Counter.{increment_counter-done}
use secure_cloud_storage.Steps.Pieces.{Piece, IsPiece, AllPieces, AllCoded, stream, contents}
use secure_cloud_storage.Steps.Pieces.Receiving.{store_chunk-done, Takes, receive_all}
use secure_cloud_storage.Client.Requests.{save_chunks}
use secure_cloud_storage.Client.Replies.{receive_reply-done}

chunk_of :
    (code size : ℕ) (content : Bytes)
    → length content ≡ size
    → (deserialize_mi (code ∷ content) size).file_chunk ≡ content
unfolding deserialize_mi read_at
chunk_of code size content h = take_all size content (omega arith)

code_of :
    (code size : ℕ) (content : Bytes) → (deserialize_mi (code ∷ content) size).message_code ≡ code
unfolding deserialize_mi read_at
code_of code size content = refl

-- The code of a chunk.
abbrev pub IsChunk : ℕ → Type 0
IsChunk code = code ≡ message_code download_chunk

module _ (p : Platform) (works : (n : ℕ) → p.succeeds n ≡ true) (lawful : IsLawful p)
    (authenticate : M ℕ) (fm : FileManager) (path : Bytes) (mode : fm.open_mode ≡ write)
    (open_at : fm.stream ≡ some path) (last : fm.last_chunk_size ≤ chunk_size) where
  -- One round: the packet is taken, the counter goes up, and the content is appended.
  save_chunks-Takes : Takes p IsChunk path fm (save_chunks p authenticate)
  unfolding save_chunks require ◌>>=◌
  save_chunks-Takes left i x rest w piece coded next low =
      let size = size_at fm i in
      let bound = size_at_le fm i last in
      let u = record w { incoming = rest; calls = w.calls + 5 } in
      let v = record u { counter = w.counter + 1 } in
      let accepted : ((deserialize_mi (x.code ∷ x.content) size).message_code
            == message_code download_chunk)
          ≡ true =
        (==_iff _ _).1 (code_of x.code size x.content ∙ coded) in
      rw (
        receive_reply-done p works lawful authenticate (1 + size) x.packet rest (x.code ∷ x.content)
            w next piece.packet_size (omega arith) (sym piece.at_counter) piece.opens,
        increment_counter-done p authenticate u low,
        accepted,
        chunk_of x.code size x.content piece.content_size,
        store_chunk-done fm path x.content size v mode open_at piece.content_size,
      )

  -- All rounds: the contents arrive in the file in order.
  pub save_chunks-done :
      (xs : List Piece) (rest : Bytes) (w : World)
      → AllPieces p w.session_key fm 0 w.counter xs
      → AllCoded IsChunk xs
      → w.incoming ≡ stream xs ++ rest
      → w.counter + length xs ≤ max_counter_value
      → save_chunks p authenticate (length xs) 0 fm w
        ≡ done tt (record w {
          incoming = rest;
          counter = w.counter + length xs;
          disk = append_content path (contents xs) w.disk;
          calls = w.calls + 5 * length xs;
        })
  unfolding save_chunks
  save_chunks-done xs =
      receive_all p IsChunk path fm (save_chunks p authenticate) (λ i w. refl) save_chunks-Takes xs
        0
