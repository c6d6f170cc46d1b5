-- ===== src/Server/Downloading.antt =====
-- `Server::downloadRequest` of src/modules/Server.cpp, when the file is there.
pub mod Whole
use mathlib.Core.Option
use secure_cloud_storage.Common.{
  ℕ, zero, suc, ◌+◌, ◌-◌, ◌*◌, ◌^◌, ◌≤◌, ◌<◌, ◌≡◌, refl, sym, ap, ◌∙◌, true, false, Option, none,
  some, List, [], ◌∷◌, ◌++◌, length, take, drop, arith, ◌==◌, if◌then◌else◌, take_all, append_assoc,
  append-nil, length-append, length-take, length-drop, drop-drop, take-append, take-append-drop,
  ==_iff,
}
use secure_cloud_storage.Config.{chunk_size, max_counter_value}
use secure_cloud_storage.Codes.{message_code, download_chunk}
use secure_cloud_storage.Memory.{Bytes, memcpy, read_at}
use secure_cloud_storage.Messages.Generic
use secure_cloud_storage.Messages.Download.{
  download_mi, serialize_mi, deserialize_mi, get_message_size_mi, chunk_bytes,
}
use secure_cloud_storage.Files.{Disk, Entry, find}
use secure_cloud_storage.Files.Manager.{FileManager, read, read_chunk, delivered}
use secure_cloud_storage.Files.Reading.{
  size_at, remaining, at, next_bytes, length-next_bytes, read_chunk-some, next_bytes-buffer,
}
use secure_cloud_storage.World.{Platform, IsLawful, World, M, Outcome, done, require_some, ◌>>=◌}
use secure_cloud_storage.Server.Handlers.{download_chunks}
use secure_cloud_storage.Steps.Counter.{increment_counter-done}
use secure_cloud_storage.Steps.Pieces.{Piece, IsPiece, AllPieces, packets, contents}
use secure_cloud_storage.Steps.Pieces.Sending.{
  piece_of, pieces, contents-pieces, pieces-AllPieces, send_message-piece, Sends, send_all,
}

-- What a reader with the key makes of a chunk's packet, if it opens at the counter.
abbrev pub chunk_in : Platform → Bytes → ℕ → ℕ → Bytes → Option Bytes
chunk_in p key counter size packet =
    let m = Generic.deserialize packet (get_message_size_mi size) in
    if Generic.get_counter m == counter
    then Option.map (λ plain. (deserialize_mi plain size).file_chunk)
        (p.unseal key m.iv m.aad m.tag m.ciphertext)
    else none

abbrev pub append_to : Option Bytes → Bytes → Option Bytes
append_to none b = none
append_to (some a) b = some (a ++ b)

-- What a reader makes of the packets of the rounds from `i` on, each at the next counter.
abbrev pub chunks_in : Platform → Bytes → FileManager → ℕ → ℕ → List Bytes → Option Bytes
chunks_in p key fm i counter [] = some []
chunks_in p key fm i counter (x ∷ xs) =
    let rest = chunks_in p key fm (i + 1) (counter + 1) xs in
    elim rest as (λ _. Option Bytes) [
      | none ↦ none
      | some b ↦ append_to (chunk_in p key counter (size_at fm i) x) b
    ]

chunk_of :
    (code size : ℕ) (content : Bytes)
    → length content ≡ size
    → (deserialize_mi (code ∷ content) size).file_chunk ≡ content
unfolding deserialize_mi read_at
chunk_of code size content h = take_all size content (omega arith)

chunk_in-piece :
    (p : Platform) (key : Bytes) (counter size : ℕ) (x : Piece)
    → IsPiece p key counter size x
    → chunk_in p key counter size x.packet ≡ some x.content
chunk_in-piece p key counter size x piece =
    rw ((==_iff _ _).1 (sym piece.at_counter), piece.opens)
      (ap some (chunk_of x.code size x.content piece.content_size))

-- A reader of pieces gets their contents.
chunks_in-pieces :
    (p : Platform) (key : Bytes) (fm : FileManager) (xs : List Piece) (i counter : ℕ)
    → AllPieces p key fm i counter xs
    → chunks_in p key fm i counter (packets xs) ≡ some (contents xs)
chunks_in-pieces p key fm [] i counter _ = refl
chunks_in-pieces p key fm (x ∷ xs) i counter (piece, pieces) = rw (
  chunks_in-pieces p key fm xs (i + 1) (counter + 1) pieces,
  chunk_in-piece p key counter (size_at fm i) x piece,
)

abbrev pub chunk_code : ℕ
chunk_code = message_code download_chunk

module _ (p : Platform) (works : (n : ℕ) → p.succeeds n ≡ true) (lawful : IsLawful p)
    (authenticate : M ℕ) (fm : FileManager) (path : Bytes) (e : Entry) (mode : fm.open_mode ≡ read)
    (open_at : fm.stream ≡ some path) where
  -- One round: the next part of the file goes out, at the counter, and the counter goes up.
  download_chunks-Sends : Sends p works chunk_code fm path e (download_chunks p authenticate)
  unfolding download_chunks require_some ◌>>=◌
  download_chunks-Sends left i k buffer w there enough fits bound low =
      let size = size_at fm i in
      let got = next_bytes fm e i k in
      let buffer' = memcpy buffer 0 got in
      let memory = p.fresh (get_message_size_mi size) in
      let (front, same) = next_bytes-buffer fm path e i k buffer enough fits in
      let made : serialize_mi (download_mi buffer' size) size memory ≡ chunk_code ∷ got =
        chunk_bytes size buffer' memory (omega arith) (lawful.fresh_size (get_message_size_mi size))
        ∙ ap (λ c. chunk_code ∷ c) front in
      let sent =
        send_message-piece p works chunk_code fm path e lawful
          (serialize_mi (download_mi buffer' size) size memory) got size w made
          (length-next_bytes fm path e i k enough) bound in
      let u = record w {
        calls = w.calls + 9;
        outgoing =
            w.outgoing
            ++ ((piece_of p works chunk_code fm path e w.session_key w.counter w.calls got).packet
                ∷ []);
      } in
      rw (
        read_chunk-some fm path e i k buffer w.disk mode open_at there enough,
        sent,
        increment_counter-done p authenticate u low,
      )

  -- All rounds: the pieces of the rest of the file go out.
  pub download_chunks-done :
      fm.last_chunk_size ≤ chunk_size
      → (left i k : ℕ) (buffer : Bytes) (w : World) → i + left ≡ fm.chunks_num
      → find path w.disk ≡ some e
      → k + remaining fm left ≡ length e.content
      → chunk_size ≤ length buffer
      → w.counter + left ≤ max_counter_value
      → let xs = pieces p works chunk_code fm path e left i k w.session_key w.counter w.calls in
        download_chunks p authenticate left i (at fm k) buffer w
        ≡ done tt (record w {
          outgoing = w.outgoing ++ packets xs;
          counter = w.counter + left;
          calls = w.calls + 9 * left;
        })
  unfolding download_chunks
  download_chunks-done =
      send_all p works chunk_code fm path e (download_chunks p authenticate) (λ i f buffer w. refl)
        download_chunks-Sends

-- A reader of a file's pieces gets the file.
pub chunks_in-file :
    (p : Platform) (works : (n : ℕ) → p.succeeds n ≡ true)
    → IsLawful p
    → (fm : FileManager) (path : Bytes) (e : Entry) (key : Bytes) (counter draw : ℕ)
    → 0 + remaining fm fm.chunks_num ≡ length e.content
    → counter + fm.chunks_num ≤ max_counter_value
    → chunks_in p key fm 0 counter
        (packets (pieces p works chunk_code fm path e fm.chunks_num 0 0 key counter draw))
      ≡ some e.content
chunks_in-file p works lawful fm path e key counter draw whole room =
    let n = fm.chunks_num in
    let xs = pieces p works chunk_code fm path e n 0 0 key counter draw in
    chunks_in-pieces p key fm xs 0 counter (
      pieces-AllPieces p works chunk_code fm path e lawful n 0 0 key counter draw (omega arith)
        whole room)
    ∙ ap some
        (contents-pieces p works chunk_code fm path e n 0 0 key counter draw (omega arith) whole)
