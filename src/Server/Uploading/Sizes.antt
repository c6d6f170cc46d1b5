-- ===== src/Server/Uploading/Sizes.antt =====
-- The chunks that the server waits for add up to the announced size.
use secure_cloud_storage.Common.{
  ℕ, zero, suc, ◌+◌, ◌-◌, ◌*◌, ◌^◌, ◌<◌, ◌≡◌, refl, sym, ◌∙◌, List, [], ◌∷◌, length, arith,
  length-append,
}
use secure_cloud_storage.Config.{chunk_size}
use secure_cloud_storage.Memory.{Bytes}
use secure_cloud_storage.Files.Manager.{FileManager, init_file_info}
use secure_cloud_storage.Files.Chunks.{init_file_info_partition}
use secure_cloud_storage.World.{Platform}
use secure_cloud_storage.Files.Reading.{size_at}
use secure_cloud_storage.Steps.Pieces.{Piece, AllPieces, contents}

module _ (p : Platform) (key : Bytes) (fm : FileManager) where
  last_size : (i : ℕ) → i + 1 ≡ fm.chunks_num → size_at fm i ≡ fm.last_chunk_size
  last_size i h = ground arith

  full_size : (i : ℕ) → i + 1 < fm.chunks_num → size_at fm i ≡ chunk_size
  full_size i h = ground arith

  length-contents :
      (x : Piece) (xs : List Piece) (i counter : ℕ)
      → AllPieces p key fm i counter (x ∷ xs)
      → i + suc (length xs) ≡ fm.chunks_num
      → length (contents (x ∷ xs)) ≡ length xs * chunk_size + fm.last_chunk_size
  length-contents x [] i counter (piece, _) h =
      omega (arith, piece.content_size, last_size i (omega arith), length-append x.content [])
  length-contents x (y ∷ ys) i counter (piece, pieces) h = omega (
    arith,
    piece.content_size,
    full_size i (omega arith),
    length-append x.content (contents (y ∷ ys)),
    length-contents y ys (i + 1) (counter + 1) pieces (omega arith),
  )

empty_size :
    (size n last : ℕ)
    → n ≡ 0
    → (0 < size → (0 < n) × ((n - 1) * chunk_size + last ≡ size))
    → size ≡ 0
empty_size zero n last h sum = refl
empty_size (suc size) n last h sum = let (some, total) = sum (omega arith) in absurd (omega arith)

whole_size :
    (size n m last : ℕ)
    → n ≡ suc m
    → (0 < size → (0 < n) × ((n - 1) * chunk_size + last ≡ size))
    → (size ≡ 0 → n ≡ 0)
    → m * chunk_size + last ≡ size
whole_size zero n m last h sum none' = let e = none' refl in absurd (omega arith)
whole_size (suc size) n m last h sum none' = let (some, total) = sum (omega arith) in omega arith

-- All the pieces of a file of the announced size have that size together.
pub contents_size :
    (p : Platform) (key : Bytes) (size counter : ℕ) (fm : FileManager) (xs : List Piece)
    → size < 2 ^ 53
    → AllPieces p key (init_file_info size fm) 0 counter xs
    → length xs ≡ (init_file_info size fm).chunks_num
    → length (contents xs) ≡ size
contents_size p key size counter fm [] small _ h =
    let r = init_file_info size fm in
    let (same, least, most, sum, none') = init_file_info_partition size fm small in
    sym (empty_size size r.chunks_num r.last_chunk_size (sym h) sum)
contents_size p key size counter fm (x ∷ xs) small pieces h =
    let r = init_file_info size fm in
    let (same, least, most, sum, none') = init_file_info_partition size fm small in
    length-contents p key r x xs 0 counter pieces (omega arith)
    ∙ whole_size size r.chunks_num (length xs) r.last_chunk_size (sym h) sum none'
