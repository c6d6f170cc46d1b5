-- ===== src/Steps/Pieces/Receiving.antt =====
-- A loop that receives pieces and appends them to a file.
use secure_cloud_storage.Common.{
  ℕ, zero, suc, ◌+◌, ◌*◌, ◌≤◌, ◌<◌, ◌≡◌, sym, ap, ◌∙◌, refl, some, List, [], ◌∷◌, ◌++◌, length,
  arith, append_assoc, take_all,
}
use secure_cloud_storage.Config.{max_counter_value}
use secure_cloud_storage.Memory.{Bytes}
use secure_cloud_storage.Files.{Disk, append_content}
use secure_cloud_storage.Files.Laws.{append_content-append, append_content-nil}
use secure_cloud_storage.Files.Manager.{FileManager, write, write_chunk}
use secure_cloud_storage.Files.Reading.{size_at}
use secure_cloud_storage.World.{Platform, World, M, Outcome, done}
use secure_cloud_storage.Steps.{store_chunk}
use secure_cloud_storage.Steps.Pieces.{Piece, IsPiece, AllPieces, AllCoded, stream, contents}

pub store_chunk-done :
    (fm : FileManager) (path content : Bytes) (size : ℕ) (w : World)
    → fm.open_mode ≡ write
    → fm.stream ≡ some path
    → length content ≡ size
    → store_chunk fm content size w
      ≡ done tt (record w { disk = append_content path content w.disk })
unfolding store_chunk write_chunk
store_chunk-done fm path content size w mode open_at h =
    rw (mode, open_at)
      (ap (λ c. done tt (record w { disk = append_content path c w.disk }))
        (take_all size content (omega arith)))

-- Two descriptions of the world after some rounds.
same_end :
    (w : World) {s s' : Bytes} {c c' k k' : ℕ} {d d' : Disk}
    → s ≡ s'
    → c ≡ c'
    → d ≡ d'
    → k ≡ k'
    → let a : World = record w { incoming = s; counter = c; disk = d; calls = k } in
      let b : World = record w { incoming = s'; counter = c'; disk = d'; calls = k' } in
      ◌≡◌ {A = Outcome (Unit {0})} (done tt a) (done tt b)
same_end w es ec ed ek i =
    done tt (record w { incoming = es i; counter = ec i; disk = ed i; calls = ek i })

module _ (p : Platform) (Accepts : ℕ → Type 0) (path : Bytes) (fm : FileManager)
    (loop : ℕ → ℕ → FileManager → M (Unit {0})) where
  -- The loop stops after the rounds that it is given.
  abbrev pub Stops : Type 0
  Stops = (i : ℕ) (w : World) → loop zero i fm w ≡ done tt w

  -- One round: the packet is taken, the counter goes up, and the content is appended.
  abbrev pub Takes : Type 0
  Takes =
      (left i : ℕ) (x : Piece) (rest : Bytes) (w : World)
      → IsPiece p w.session_key w.counter (size_at fm i) x
      → Accepts x.code
      → w.incoming ≡ x.packet ++ rest
      → w.counter < max_counter_value
      → loop (suc left) i fm w
        ≡ loop left (i + 1) fm (record w {
          incoming = rest;
          counter = w.counter + 1;
          disk = append_content path x.content w.disk;
          calls = w.calls + 5;
        })

  -- All rounds: the contents arrive in the file in order.
  pub receive_all :
      Stops
      → Takes
      → (xs : List Piece) (i : ℕ) (rest : Bytes) (w : World)
      → AllPieces p w.session_key fm i w.counter xs
      → AllCoded Accepts xs
      → w.incoming ≡ stream xs ++ rest
      → w.counter + length xs ≤ max_counter_value
      → loop (length xs) i fm w
        ≡ done tt (record w {
          incoming = rest;
          counter = w.counter + length xs;
          disk = append_content path (contents xs) w.disk;
          calls = w.calls + 5 * length xs;
        })
  receive_all stops takes [] i rest w _ _ next room =
      stops i w ∙ same_end w next (omega arith) (sym (append_content-nil path w.disk)) (omega arith)
  receive_all stops takes (x ∷ xs) i rest w (piece, pieces) (coded, all_coded) next room =
      let u = record w {
        incoming = stream xs ++ rest;
        counter = w.counter + 1;
        disk = append_content path x.content w.disk;
        calls = w.calls + 5;
      } in
      takes (length xs) i x (stream xs ++ rest) w piece coded
        (next ∙ append_assoc x.packet (stream xs) rest) (omega arith)
      ∙ receive_all stops takes xs (i + 1) rest u pieces all_coded refl (omega arith)
      ∙ same_end w refl (omega arith) (append_content-append path x.content (contents xs) w.disk)
          (omega arith)
