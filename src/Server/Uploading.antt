-- ===== src/Server/Uploading.antt =====
-- `Server::uploadRequest` of src/modules/Server.cpp, when the client sends a file.
pub mod Sizes
pub mod Whole
use mathlib.Core.Option
use secure_cloud_storage.Common.{
  ℕ, zero, suc, ◌+◌, ◌-◌, ◌*◌, ◌^◌, ◌≤◌, ◌<◌, ◌≡◌, refl, sym, ap, ◌∙◌, true, false, Option, none,
  some, List, [], ◌∷◌, ◌++◌, length, take, drop, arith, ◌==◌, if◌then◌else◌, take_all, append_assoc,
  append-nil, length-append, ==_iff,
}
use secure_cloud_storage.Config.{chunk_size, max_counter_value}
use secure_cloud_storage.Memory.{Bytes, c_string, read_at}
use secure_cloud_storage.Messages.Generic
use secure_cloud_storage.Messages.Upload.{get_size_upload_mi, deserialize_upload_mi}
use secure_cloud_storage.Files.{Disk, find, append_content}
use secure_cloud_storage.Files.Manager.{FileManager, write, write_chunk}
use secure_cloud_storage.World.{Platform, IsLawful, World, M, Outcome, done, require, ◌>>=◌}
use secure_cloud_storage.Server.Handlers.{upload_chunks}
use secure_cloud_storage.Steps.{store_chunk}
use secure_cloud_storage.Files.Reading.{size_at, size_at_le}
use secure_cloud_storage.Steps.Pieces.{Piece, IsPiece, AllPieces, AllCoded-any, stream, contents}
use secure_cloud_storage.Steps.Pieces.Receiving.{store_chunk-done, receive_all}
use secure_cloud_storage.Steps.Counter.{increment_counter-done}
use secure_cloud_storage.Channel.Exchange.{receive_message-done}

chunk_of :
    (code : ℕ) (content : Bytes) (size : ℕ)
    → length content ≡ size
    → (deserialize_upload_mi (code ∷ content) size).chunk ≡ content
unfolding deserialize_upload_mi read_at
chunk_of code content size h = take_all size content (omega arith)

module _ (p : Platform) (works : (n : ℕ) → p.succeeds n ≡ true) (lawful : IsLawful p)
    (authenticate : M ℕ) (fm : FileManager) (path : Bytes) (mode : fm.open_mode ≡ write)
    (open_at : fm.stream ≡ some path) (last : fm.last_chunk_size ≤ chunk_size) where
  -- One round: the packet is taken, the counter goes up, and the content is appended.
  upload_chunks-step :
      (left i : ℕ) (x : Piece) (rest : Bytes) (w : World)
      → IsPiece p w.session_key w.counter (size_at fm i) x
      → w.incoming ≡ x.packet ++ rest
      → w.counter < max_counter_value
      → upload_chunks p authenticate (suc left) i fm w
        ≡ upload_chunks p authenticate left (i + 1) fm (record w {
          incoming = rest;
          counter = w.counter + 1;
          disk = append_content path x.content w.disk;
          calls = w.calls + 5;
        })
  unfolding upload_chunks require ◌>>=◌
  upload_chunks-step left i x rest w piece next low =
      let size = size_at fm i in
      let bound = size_at_le fm i last in
      let u = record w { incoming = rest; calls = w.calls + 5 } in
      let v = record u { counter = w.counter + 1 } in
      let m = Generic.deserialize x.packet (get_size_upload_mi size) in
      let now : (w.counter == Generic.get_counter m) ≡ true =
        (==_iff w.counter (Generic.get_counter m)).1 piece.at_counter in
      rw (
        receive_message-done p works lawful (get_size_upload_mi size) x.packet rest
            (x.code ∷ x.content) w next piece.packet_size (omega arith) piece.opens,
        now,
        increment_counter-done p authenticate u low,
        chunk_of x.code x.content size piece.content_size,
        store_chunk-done fm path x.content size v mode open_at piece.content_size,
      )

  -- All rounds: the contents arrive in the file in order.
  pub upload_chunks-done :
      (xs : List Piece) (i : ℕ) (rest : Bytes) (w : World)
      → AllPieces p w.session_key fm i w.counter xs
      → w.incoming ≡ stream xs ++ rest
      → w.counter + length xs ≤ max_counter_value
      → upload_chunks p authenticate (length xs) i fm w
        ≡ done tt (record w {
          incoming = rest;
          counter = w.counter + length xs;
          disk = append_content path (contents xs) w.disk;
          calls = w.calls + 5 * length xs;
        })
  unfolding upload_chunks
  upload_chunks-done xs i rest w pieces next room =
      receive_all p (λ _. Unit) path fm (upload_chunks p authenticate) (λ i w. refl)
        (λ left i x rest w piece any next low. upload_chunks-step left i x rest w piece next low) xs
        i rest w pieces (AllCoded-any xs) next room
