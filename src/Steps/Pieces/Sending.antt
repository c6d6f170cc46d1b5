-- ===== src/Steps/Pieces/Sending.antt =====
-- A loop that reads a file in chunks and sends each in a piece.
use secure_cloud_storage.Common.{
  ℕ, zero, suc, ◌+◌, ◌*◌, ◌^◌, ◌≤◌, ◌<◌, ◌≡◌, refl, sym, ap, ◌∙◌, true, some, List, [], ◌∷◌, ◌++◌,
  length, take, drop, arith, append_assoc, append-nil, drop-drop, take-append-drop,
}
use secure_cloud_storage.Config.{chunk_size, max_counter_value}
use secure_cloud_storage.Memory.{Bytes, memcpy}
use secure_cloud_storage.Memory.Laws.{dropped_all}
use secure_cloud_storage.Messages.Generic.{generic}
use secure_cloud_storage.Files.{Entry, find}
use secure_cloud_storage.Files.Manager.{FileManager}
use secure_cloud_storage.Files.Reading.{
  size_at, size_at_le, remaining, remaining-suc, at, next_bytes, length-next_bytes,
  next_bytes-buffer,
}
use secure_cloud_storage.World.{Platform, IsLawful, World, M, Outcome, done}
use secure_cloud_storage.Channel.Exchange.{
  on_wire, on_wire-opens, sealed, send_message-whole, packet_for,
}
use secure_cloud_storage.Channel.{send_message}
use secure_cloud_storage.Steps.Pieces.{Piece, IsPiece, AllPieces, AllCoded, packets, contents}

module _ (p : Platform) (works : (n : ℕ) → p.succeeds n ≡ true) (code : ℕ) (fm : FileManager)
    (path : Bytes) (e : Entry) where
  abbrev pub piece_of : Bytes → ℕ → ℕ → Bytes → Piece
  piece_of key counter draw content = record {
    packet = on_wire p works (sealed p works key (generic counter) (code ∷ content) draw);
    code = code;
    content = content;
  }

  -- The pieces of the last so many rounds, from round `i` and position `k` on.
  abbrev pub pieces : ℕ → ℕ → ℕ → Bytes → ℕ → ℕ → List Piece
  pieces zero i k key counter draw = []
  pieces (suc left) i k key counter draw =
      piece_of key counter draw (next_bytes fm e i k)
      ∷ pieces left (i + 1) (k + size_at fm i) key (counter + 1) (draw + 9)

  pub length-pieces :
      (left i k : ℕ) (key : Bytes) (counter draw : ℕ)
      → length (pieces left i k key counter draw) ≡ left
  length-pieces zero i k key counter draw = refl
  length-pieces (suc left) i k key counter draw =
      ap suc (length-pieces left (i + 1) (k + size_at fm i) key (counter + 1) (draw + 9))

  pub pieces-AllCoded :
      (left i k : ℕ) (key : Bytes) (counter draw : ℕ)
      → AllCoded (λ c. c ≡ code) (pieces left i k key counter draw)
  pieces-AllCoded zero i k key counter draw = tt
  pieces-AllCoded (suc left) i k key counter draw =
      (refl, pieces-AllCoded left (i + 1) (k + size_at fm i) key (counter + 1) (draw + 9))

  pub contents-pieces :
      (left i k : ℕ) (key : Bytes) (counter draw : ℕ)
      → i + left ≡ fm.chunks_num
      → k + remaining fm left ≡ length e.content
      → contents (pieces left i k key counter draw) ≡ drop k e.content
  contents-pieces zero i k key counter draw count whole =
      sym (dropped_all k e.content (omega arith))
  contents-pieces (suc left) i k key counter draw count whole =
      let size = size_at fm i in
      let sizes = remaining-suc fm left i count in
      ap (λ r. take size (drop k e.content) ++ r)
        (contents-pieces left (i + 1) (k + size) key (counter + 1) (draw + 9) (omega arith)
            (omega arith)
          ∙ sym (drop-drop k size e.content))
      ∙ take-append-drop size (drop k e.content)

  module _ (lawful : IsLawful p) where
    piece_of-IsPiece :
        (key : Bytes) (counter draw size : ℕ) (content : Bytes)
        → length content ≡ size
        → counter < 2 ^ 32
        → IsPiece p key counter size (piece_of key counter draw content)
    piece_of-IsPiece key counter draw size content h small =
        let (wire_size, at_counter, opens) =
          on_wire-opens p works lawful key counter (code ∷ content) draw (1 + size) (omega arith)
            small in
        record {
          packet_size = wire_size;
          at_counter = sym at_counter;
          opens = opens;
          content_size = h;
        }

    -- A chunk message with this content, sent.
    pub send_message-piece :
        (plain content : Bytes) (size : ℕ) (w : World)
        → plain ≡ code ∷ content
        → length content ≡ size
        → size ≤ chunk_size
        → send_message p plain (1 + size) w
          ≡ done tt (record w {
            calls = w.calls + 9;
            outgoing =
                w.outgoing ++ ((piece_of w.session_key w.counter w.calls content).packet ∷ []);
          })
    send_message-piece plain content size w made h bound =
        send_message-whole p works lawful plain (1 + size) w (ap length made ∙ omega arith)
          (omega arith)
        ∙ ap
            (λ b. done tt (record w {
              calls = w.calls + 9;
              outgoing = w.outgoing ++ (packet_for p works lawful w b ∷ []);
            }))
            made

    pub pieces-AllPieces :
        (left i k : ℕ) (key : Bytes) (counter draw : ℕ)
        → i + left ≡ fm.chunks_num
        → k + remaining fm left ≡ length e.content
        → counter + left ≤ max_counter_value
        → AllPieces p key fm i counter (pieces left i k key counter draw)
    pieces-AllPieces zero i k key counter draw count whole room = tt
    pieces-AllPieces (suc left) i k key counter draw count whole room =
        let size = size_at fm i in
        let sizes = remaining-suc fm left i count in
        (
          piece_of-IsPiece key counter draw size (next_bytes fm e i k)
              (length-next_bytes fm path e i k (omega arith)) (omega arith),
          pieces-AllPieces left (i + 1) (k + size) key (counter + 1) (draw + 9) (omega arith)
              (omega arith) (omega arith),
        )

  module _ (loop : ℕ → ℕ → FileManager → Bytes → M (Unit {0})) where
    abbrev pub Stops : Type 0
    Stops =
        (i : ℕ) (f : FileManager) (buffer : Bytes) (w : World) → loop zero i f buffer w ≡ done tt w

    -- One round: the next part of the file goes out, at the counter, and the counter goes up.
    abbrev pub Sends : Type 0
    Sends =
        (left i k : ℕ) (buffer : Bytes) (w : World)
        → find path w.disk ≡ some e
        → k + size_at fm i ≤ length e.content
        → size_at fm i ≤ length buffer
        → size_at fm i ≤ chunk_size
        → w.counter < max_counter_value
        → loop (suc left) i (at fm k) buffer w
          ≡ loop left (i + 1) (at fm (k + size_at fm i)) (memcpy buffer 0 (next_bytes fm e i k))
              (record w {
                counter = w.counter + 1;
                outgoing =
                    w.outgoing
                    ++ ((piece_of w.session_key w.counter w.calls (next_bytes fm e i k)).packet
                        ∷ []);
                calls = w.calls + 9;
              })

    same_end :
        (w : World) {o o' : List Bytes} {c c' k k' : ℕ}
        → o ≡ o'
        → c ≡ c'
        → k ≡ k'
        → ◌≡◌ {A = Outcome (Unit {0})}
            (done tt (record w { outgoing = o; counter = c; calls = k }))
            (done tt (record w { outgoing = o'; counter = c'; calls = k' }))
    same_end w eo ec ek i = done tt (record w { outgoing = eo i; counter = ec i; calls = ek i })

    -- All rounds: the pieces go out in order.
    pub send_all :
        Stops
        → Sends
        → fm.last_chunk_size ≤ chunk_size
        → (left i k : ℕ) (buffer : Bytes) (w : World) → i + left ≡ fm.chunks_num
        → find path w.disk ≡ some e
        → k + remaining fm left ≡ length e.content
        → chunk_size ≤ length buffer
        → w.counter + left ≤ max_counter_value
        → loop left i (at fm k) buffer w
          ≡ done tt (record w {
            outgoing = w.outgoing ++ packets (pieces left i k w.session_key w.counter w.calls);
            counter = w.counter + left;
            calls = w.calls + 9 * left;
          })
    send_all stops sends small zero i k buffer w count there whole fits room =
        stops i (at fm k) buffer w
        ∙ same_end w (sym (append-nil w.outgoing)) (omega arith) (omega arith)
    send_all stops sends small (suc left) i k buffer w count there whole fits room =
        let size = size_at fm i in
        let sizes = remaining-suc fm left i count in
        let bound = size_at_le fm i small in
        let packet = (piece_of w.session_key w.counter w.calls (next_bytes fm e i k)).packet in
        let (front, same) = next_bytes-buffer fm path e i k buffer (omega arith) (omega arith) in
        let u = record w {
          counter = w.counter + 1;
          outgoing = w.outgoing ++ (packet ∷ []);
          calls = w.calls + 9;
        } in
        sends left i k buffer w there (omega arith) (omega arith) bound (omega arith)
        ∙ send_all stops sends small left (i + 1) (k + size) (memcpy buffer 0 (next_bytes fm e i k))
            u (omega arith) there (omega arith) (omega arith) (omega arith)
        ∙ same_end w (append_assoc w.outgoing (packet ∷ []) _) (omega arith) (omega arith)
