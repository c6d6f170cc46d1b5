-- ===== src/Steps/Pieces.antt =====
-- A file on its way in either direction: chunk messages in envelopes at consecutive counters. The
-- messages `UploadMi` and `DownloadMi` have one layout, a code and the chunk.
pub mod Receiving
pub mod Sending
use secure_cloud_storage.Common.{
  ℕ, suc, ◌+◌, ◌≡◌, refl, List, [], ◌∷◌, ◌++◌, some, length, ap, ◌-◌, ◌==◌, if◌then◌else◌,
}
use secure_cloud_storage.Memory.{Bytes}
use secure_cloud_storage.Memory.Laws.{joined}
use secure_cloud_storage.Messages.Generic
use secure_cloud_storage.Files.Manager.{FileManager}
use secure_cloud_storage.Files.Reading.{size_at}
use secure_cloud_storage.World.{Platform}

-- A chunk message on its way: its packet, the code in its first byte, and its content.
pub record Piece : Type 0 where
  pub packet : Bytes
  pub code : ℕ
  pub content : Bytes

-- The packet opens under the key, at the counter, to a chunk of the size.
pub record IsPiece (p : Platform) (key : Bytes) (counter size : ℕ) (x : Piece) : Type 0 where
  pub packet_size : length x.packet ≡ Generic.get_message_size (1 + size)
  pub at_counter : counter ≡ Generic.get_counter (Generic.deserialize x.packet (1 + size))
  pub opens :
      let m = Generic.deserialize x.packet (1 + size) in
      p.unseal key m.iv m.aad m.tag m.ciphertext ≡ some (x.code ∷ x.content)
  pub content_size : length x.content ≡ size

-- The pieces of rounds `i`, `i + 1` and so on, at consecutive counters.
abbrev pub AllPieces : Platform → Bytes → FileManager → ℕ → ℕ → List Piece → Type 0
AllPieces p key fm i counter [] = Unit
AllPieces p key fm i counter (x ∷ xs) =
    IsPiece p key counter (size_at fm i) x × AllPieces p key fm (i + 1) (counter + 1) xs

-- The codes of all pieces are accepted.
abbrev pub AllCoded : (ℕ → Type 0) → List Piece → Type 0
AllCoded Accepts [] = Unit
AllCoded Accepts (x ∷ xs) = Accepts x.code × AllCoded Accepts xs

pub AllCoded-any : (xs : List Piece) → AllCoded (λ _. Unit) xs
AllCoded-any [] = tt
AllCoded-any (x ∷ xs) = (tt, AllCoded-any xs)

abbrev pub stream : List Piece → Bytes
stream [] = []
stream (x ∷ xs) = x.packet ++ stream xs

abbrev pub packets : List Piece → List Bytes
packets [] = []
packets (x ∷ xs) = x.packet ∷ packets xs

abbrev pub contents : List Piece → Bytes
contents [] = []
contents (x ∷ xs) = x.content ++ contents xs

pub joined-packets : (xs : List Piece) → joined (packets xs) ≡ stream xs
joined-packets [] = refl
joined-packets (x ∷ xs) = ap (λ r. x.packet ++ r) (joined-packets xs)

pub length-packets : (xs : List Piece) → length (packets xs) ≡ length xs
length-packets [] = refl
length-packets (x ∷ xs) = ap suc (length-packets xs)

-- Only the chunk sizes of the manager matter.
pub AllPieces-same :
    (p : Platform) (key : Bytes) (fm fm' : FileManager) (xs : List Piece) (i counter : ℕ)
    → fm.chunks_num ≡ fm'.chunks_num
    → fm.last_chunk_size ≡ fm'.last_chunk_size
    → AllPieces p key fm i counter xs
    → AllPieces p key fm' i counter xs
AllPieces-same p key fm fm' [] i counter hn hl _ = tt
AllPieces-same p key fm fm' (x ∷ xs) i counter hn hl (piece, pieces) =
    (rw (← hn, ← hl) piece, AllPieces-same p key fm fm' xs (i + 1) (counter + 1) hn hl pieces)

-- The same key and counter under other names, and the chunk sizes of another manager.
pub AllPieces-moved :
    (p : Platform) (key key' : Bytes) (fm fm' : FileManager) (counter counter' : ℕ)
    (xs : List Piece)
    → key ≡ key'
    → counter ≡ counter'
    → fm.chunks_num ≡ fm'.chunks_num
    → fm.last_chunk_size ≡ fm'.last_chunk_size
    → AllPieces p key fm 0 counter xs
    → AllPieces p key' fm' 0 counter' xs
AllPieces-moved p key key' fm fm' counter counter' xs same_key same_counter hn hl pieces =
    rw (← same_key, ← same_counter) (AllPieces-same p key fm fm' xs 0 counter hn hl pieces)
