-- ===== src/Client/Uploading/Whole.antt =====
-- A whole upload on the client's side, from the request to the last answer.
use secure_cloud_storage.Common.{
  ℕ, ◌+◌, ◌-◌, ◌*◌, ◌≤◌, ◌<◌, ◌≡◌, refl, sym, ap, ◌∙◌, true, not, ◌||◌, some, List, [], ◌∷◌, ◌++◌,
  length, take, arith, ◌==◌, ltb, append_assoc, take_all,
}
use secure_cloud_storage.Config.{file_name_len, max_packet_size, max_counter_value, max_file_size}
use secure_cloud_storage.Codes.{return_code, success, result_code, ack, message_code, Message}
use secure_cloud_storage.Memory.{Bytes, c_string}
use secure_cloud_storage.Memory.Laws.{NonNul}
use secure_cloud_storage.Messages.Generic.{generic}
use secure_cloud_storage.Messages.Simple.{byte_of, first_byte}
use secure_cloud_storage.Messages.Upload.{
  UploadM1, upload_m1, serialize_upload_m1, upload_m1_arrives, deserialize_upload_m1,
}
use secure_cloud_storage.Files.{Entry, find}
use secure_cloud_storage.Files.Opening.{
  read_manager, read_manager-size, opened_to_read, is_file_present-some,
}
use secure_cloud_storage.World.{Platform, IsLawful, World, M, returned, require, ◌>>=◌}
use secure_cloud_storage.Channel.{random}
use secure_cloud_storage.Channel.Exchange.{sealed, on_wire, send_message-whole}
use secure_cloud_storage.Steps.Counter.{counted_to}
use secure_cloud_storage.Steps.Replies.{Tells}
use secure_cloud_storage.Steps.Pieces.{Piece, packets}
use secure_cloud_storage.Steps.Pieces.Sending.{pieces}
use secure_cloud_storage.Client.Requests.{local_path, upload_request}
use secure_cloud_storage.Client.Replies.{receive_reply-Tells}
use secure_cloud_storage.Client.Uploading.{chunk_code, send_chunks-done}

request_code : (s : Bytes) → (deserialize_upload_m1 s).message_code ≡ byte_of s
unfolding deserialize_upload_m1
request_code s = first_byte s

upload_m1_code :
    (name : Bytes) (size : ℕ)
    → (upload_m1 name size).message_code ≡ message_code Message.upload_request
unfolding upload_m1
upload_m1_code name size = refl

module _ (p : Platform) (works : (n : ℕ) → p.succeeds n ≡ true) (lawful : IsLawful p)
    (authenticate : M ℕ) where
  module _ (name : Bytes) (e : Entry) where
    -- The request for the file, with the padding of the given draw.
    abbrev pub request : ℕ → Bytes
    request draw =
        serialize_upload_m1 (upload_m1 name (read_manager (local_path name) e.content).file_size)
          (p.rand_bytes draw (max_packet_size - 40)) (p.fresh max_packet_size)

    abbrev pub request_packet : World → Bytes
    request_packet w =
        on_wire p works
          (sealed p works w.session_key (generic w.counter) (request w.calls) (w.calls + 1))

    -- The pieces of the file behind a request that the world sends.
    abbrev pub upload_pieces : World → List Piece
    upload_pieces w =
        let fm = read_manager (local_path name) e.content in
        pieces p works chunk_code fm (local_path name) e fm.chunks_num 0 0 w.session_key
          (w.counter + 2) (w.calls + 1 + 9 + 5)

    accepted_size :
        0 < length e.content
        → length e.content ≤ max_file_size
        → let size = (read_manager (local_path name) e.content).file_size in
          not (size == 0 || ltb max_file_size size) ≡ true
    accepted_size some' small = ground (arith, read_manager-size (local_path name) e.content)

    pub request_lem :
        (draw : ℕ)
        → NonNul name
        → length name < file_name_len
        → length e.content < max_file_size
        → (length (request draw) ≡ max_packet_size)
          × (take max_packet_size (request draw) ≡ request draw)
          × (byte_of (request draw) ≡ message_code Message.upload_request)
          × (c_string (deserialize_upload_m1 (request draw)).filename ≡ some name)
          × ((deserialize_upload_m1 (request draw)).file_size ≡ length e.content)
    request_lem draw nonnul fits small =
        let size = (read_manager (local_path name) e.content).file_size in
        let size_eq : size ≡ length e.content = read_manager-size (local_path name) e.content in
        let (trip, named, sized, whole) =
          upload_m1_arrives name (p.rand_bytes draw (max_packet_size - 40))
            (p.fresh max_packet_size) size nonnul fits (omega arith)
            (lawful.fresh_size max_packet_size)
            (omega (arith, lawful.rand_size draw (max_packet_size - 40))) in
        (
          whole,
          take_all max_packet_size (request draw) (omega arith),
          sym (request_code (request draw))
              ∙ ap (λ (m : UploadM1). m.message_code) trip
              ∙ upload_m1_code name size,
          named,
          sized ∙ size_eq,
        )

    -- The client's upload, given the two answers that it waits for.
    pub upload_request-done :
        (first last rest : Bytes) (w : World)
        → let fm = read_manager (local_path name) e.content in
          find (local_path name) w.disk ≡ some e
          → NonNul name
          → length name < file_name_len
          → 0 < length e.content
          → length e.content < max_file_size
          → w.counter + 2 + fm.chunks_num < max_counter_value
          → Tells p w.session_key (w.counter + 1) (result_code ack) first
          → Tells p w.session_key (w.counter + 2 + fm.chunks_num) (result_code ack) last
          → w.incoming ≡ first ++ (last ++ rest)
          → upload_request p authenticate name w
            ≡ returned (return_code success) (record w {
              incoming = rest;
              counter = w.counter + fm.chunks_num + 3;
              outgoing = w.outgoing ++ (request_packet w ∷ packets (upload_pieces w));
              calls = w.calls + 1 + 9 + 5 + 9 * fm.chunks_num + 5;
            })
    unfolding upload_request random require ◌>>=◌
    upload_request-done first last rest w there nonnul fits some' small room tells tells' next =
        let path = local_path name in
        let fm = read_manager path e.content in
        let (total, whole, code, named, sized) = request_lem w.calls nonnul fits small in
        let u1 = record w { calls = w.calls + 1 } in
        let sent =
          send_message-whole p works lawful (request w.calls) max_packet_size u1 total
            (omega arith) in
        let u2 = record u1 {
          calls = w.calls + 1 + 9;
          outgoing = w.outgoing ++ (request_packet w ∷ []);
        } in
        let u3 = record u2 { counter = w.counter + 1 } in
        let replied =
          receive_reply-Tells p works lawful authenticate (result_code ack) first (last ++ rest) u3
            next tells in
        let u4 = record u3 { incoming = last ++ rest; calls = w.calls + 1 + 9 + 5 } in
        let u5 = record u4 { counter = w.counter + 2 } in
        let xs = upload_pieces w in
        let chunks =
          send_chunks-done p works lawful authenticate path e u5 there some' (omega arith)
            (omega arith) in
        let u6 = record u5 {
          outgoing = u5.outgoing ++ packets xs;
          counter = w.counter + 2 + fm.chunks_num;
          calls = w.calls + 1 + 9 + 5 + 9 * fm.chunks_num;
        } in
        let ended =
          receive_reply-Tells p works lawful authenticate (result_code ack) last rest u6 refl
            tells' in
        let u7 = record u6 { incoming = rest; calls = u6.calls + 5 } in
        rw
          (
            is_file_present-some path w.disk e there,
            opened_to_read path w.disk e there,
            accepted_size some' (omega arith),
            sent,
            counted_to p authenticate u2 (w.counter + 1) (omega arith) refl,
            replied,
            counted_to p authenticate u4 (w.counter + 2) (omega arith) (omega arith),
            tells.says,
            chunks,
            ended,
            counted_to p authenticate u7 (w.counter + fm.chunks_num + 3) (omega arith)
                (omega arith),
            tells'.says,
          )
          (ap
            (λ o.
              returned (return_code success)
                (record u7 { outgoing = o; counter = w.counter + fm.chunks_num + 3 }))
            (append_assoc w.outgoing (request_packet w ∷ []) (packets xs)))
