-- ===== src/Server/Termination.antt =====
-- The loop of `Server::run` ends: each round takes a packet from the stream.
use secure_cloud_storage.Common.{
  ℕ, zero, suc, ◌≤◌, ◌<◌, ◌≡◌, ◌≢◌, refl, inl, inr, Bool, true, false, Option, none, some, ◌++◌,
  length, take, drop, arith, ◌==◌, if◌then◌else◌, length-drop, length-take, Bool-cases,
}
use secure_cloud_storage.Config.{max_packet_size}
use secure_cloud_storage.Memory.{Bytes}
use secure_cloud_storage.Files.Manager.{FileManager}
use secure_cloud_storage.Messages.Generic
use secure_cloud_storage.Messages.Simple.{byte_of}
use secure_cloud_storage.World.{
  Platform, World, M, Outcome, done, returned, thrown, undefined, pure, ◌>>=◌, throw, call, modify,
  require, and_then,
}
use secure_cloud_storage.Codes.{return_code, wrong_counter, authentication_success}
use secure_cloud_storage.Channel.{Status, received, broken, gone, recv, status_of, receive, attempt}
use secure_cloud_storage.Server.Handlers.{wipe_key, rename_file, remove_file}
use secure_cloud_storage.Steps.{store_chunk, open_for_writing}
use secure_cloud_storage.Server.Session.{
  dispatch, accept_packet, serve_once, serve_loop, caught, run_body, run,
}
use secure_cloud_storage.Server.Keeps.{IsPreorder, Keeps}
use secure_cloud_storage.Server.Keeps.Rules.{
  Keeps-bind, Keeps-if, Keeps-pure, Keeps-call, Keeps-world, Keeps-throw,
}
use secure_cloud_storage.Server.Keeps.Channel.{AllowsTraffic, decrypt-Keeps}
use secure_cloud_storage.Server.Keeps.Handlers.{
  AllowsCounting, list_request-Keeps, download_request-Keeps, upload_request-Keeps,
  rename_request-Keeps, delete_request-Keeps, logout_request-Keeps,
}

-- No more bytes are to come than before.
abbrev pub Shrinks : World → World → Type 0
Shrinks w v = length v.incoming ≤ length w.incoming

shrinks : AllowsTraffic Shrinks
shrinks = record {
  order = record { same = λ w. omega arith; then_also = λ u v w h k. omega arith };
  calling = λ w. omega arith;
  sending = λ w packet. omega arith;
  receiving = λ w n. omega (arith, length-drop n w.incoming);
}

module _ (p : Platform) {authenticate : M ℕ} (again : Keeps Shrinks authenticate) where
  pre : IsPreorder Shrinks
  pre = shrinks.order

  counting : AllowsCounting Shrinks
  counting w = omega arith

  wipe_key-Shrinks : Keeps Shrinks wipe_key
  unfolding wipe_key
  wipe_key-Shrinks = record { at = λ w. omega arith }

  store_chunk-Shrinks :
      (fm : FileManager) (chunk : Bytes) (size : ℕ) → Keeps Shrinks (store_chunk fm chunk size)
  unfolding store_chunk
  store_chunk-Shrinks fm chunk size = record { at = λ w. ground arith }

  open_for_writing-Shrinks : (path : Bytes) → Keeps Shrinks (open_for_writing p authenticate path)
  unfolding open_for_writing
  open_for_writing-Shrinks path = record { at = λ w. omega arith }

  rename_file-Shrinks : (old new : Bytes) → Keeps Shrinks (rename_file p authenticate old new)
  unfolding rename_file modify ◌>>=◌ attempt
  rename_file-Shrinks old new = record { at = λ w. ground arith }

  remove_file-Shrinks : (path : Bytes) → Keeps Shrinks (remove_file p authenticate path)
  unfolding remove_file modify require ◌>>=◌ attempt
  remove_file-Shrinks path = record { at = λ w. ground arith }

  dispatch-Shrinks :
      (command : ℕ) (plaintext : Bytes) → Keeps Shrinks (dispatch p authenticate command plaintext)
  unfolding dispatch
  dispatch-Shrinks command plaintext =
      let listing = list_request-Keeps p shrinks counting again in
      let download = download_request-Keeps p shrinks counting again plaintext in
      let upload =
        upload_request-Keeps p shrinks counting again open_for_writing-Shrinks store_chunk-Shrinks
          plaintext in
      let rename = rename_request-Keeps p shrinks counting again rename_file-Shrinks plaintext in
      let delete = delete_request-Keeps p shrinks counting again remove_file-Shrinks plaintext in
      let logout = logout_request-Keeps p shrinks counting again wipe_key-Shrinks in
      Keeps-if pre _ (Keeps-call pre listing) (
        Keeps-if pre _ (Keeps-call pre download) (
          Keeps-if pre _ (Keeps-call pre upload) (
            Keeps-if pre _ (Keeps-call pre rename) (
              Keeps-if pre _ (Keeps-call pre delete)
                (Keeps-if pre _ (Keeps-call pre logout) (Keeps-pure pre 0))))))

  accept_packet-Shrinks : (buffer : Bytes) → Keeps Shrinks (accept_packet p authenticate buffer)
  unfolding accept_packet
  accept_packet-Shrinks buffer =
      Keeps-bind pre (Keeps-world pre)
        λ w. Keeps-bind pre (decrypt-Keeps p shrinks _ _) λ o. by_result w o
    where
      m : Generic.Generic
      m = Generic.deserialize buffer max_packet_size

      by_result :
          (w : World) (o : Option Bytes)
          → Keeps Shrinks (elim o as (λ _. M Bool) [
            | none ↦ pure false
            | some plaintext ↦
                if w.counter == Generic.get_counter m
                then (do result ← dispatch p authenticate (byte_of plaintext) plaintext; pure true)
                else throw (return_code wrong_counter)
          ])
      by_result w none = Keeps-pure pre false
      by_result w (some plaintext) =
          Keeps-if pre _
            (Keeps-bind pre (dispatch-Shrinks (byte_of plaintext) plaintext)
              λ r. Keeps-pure pre true)
            (Keeps-throw pre _)

-- A packet that has been received whole was in the stream.
received_whole :
    (n : ℕ) (w : World) → status_of (recv n w) n ≡ received → (n ≤ length w.incoming) × (0 < n)
unfolding status_of recv
received_whole n w h = ground (arith, length-take n w.incoming)

module _ (p : Platform) {authenticate : M ℕ} (again : Keeps Shrinks authenticate) where
  -- A round after which the loop goes on has taken bytes from the stream.
  serve_once_progress :
      (w v : World)
      → serve_once p authenticate w ≡ done true v
      → length v.incoming < length w.incoming
  unfolding serve_once receive ◌>>=◌
  serve_once_progress w v h = by_status _ refl
    where
      n : ℕ
      n = Generic.get_message_size max_packet_size

      buffer : Bytes
      buffer = take n w.incoming ++ drop (length (take n w.incoming)) (p.fresh n)

      u : World
      u = record w { incoming = drop n w.incoming }

      by_status : (s : Status) → status_of (recv n w) n ≡ s → length v.incoming < length w.incoming
      by_status received e =
          let whole = received_whole n w e in
          let o : accept_packet p authenticate buffer u ≡ done true v = rw e at h in
          let kept = (accept_packet-Shrinks p again buffer).at u in
          omega (arith, rw o at kept, length-drop n w.incoming)
      by_status broken e = cc
      by_status gone e = cc

  -- With more fuel than bytes to come the loop never stops for want of fuel: it ends by itself, or
  -- by a return, an exception or undefined behaviour in a handler.
  pub serve_loop_total :
      (fuel : ℕ) (w v : World)
      → length w.incoming < fuel
      → serve_loop p authenticate fuel w ≢ done false v
  unfolding serve_loop ◌>>=◌
  serve_loop_total zero w v h e = absurd (omega arith)
  serve_loop_total (suc fuel) w v h e =
      after_round (serve_loop_total fuel) (serve_once p authenticate w) refl e
    where
      after_round :
          ((u x : World)
            → length u.incoming < fuel
            → serve_loop p authenticate fuel u ≢ done false x)
          → (o : Outcome Bool) → serve_once p authenticate w ≡ o
          → and_then o (λ more. elim more as (λ _. M Bool) [
            | true ↦ serve_loop p authenticate fuel
            | false ↦ pure true
          ])
            ≡ done false v
          → ⊥
      after_round ih (done true u) s r = ih u v (omega (arith, serve_once_progress w u s)) r
      after_round ih (done false u) s r = cc
      after_round ih (returned c u) s r = cc
      after_round ih (thrown c u) s r = cc
      after_round ih (undefined u) s r = cc

  run_body_total :
      (fuel : ℕ) (w v : World)
      → length w.incoming < fuel
      → run_body p authenticate fuel w ≢ done false v
  unfolding run_body ◌>>=◌
  run_body_total fuel w v h e = after_login (call authenticate w) refl e
    where
      after_login :
          (o : Outcome ℕ)
          → call authenticate w ≡ o
          → and_then o (λ result.
            if result == return_code authentication_success
            then serve_loop p authenticate fuel
            else pure true)
            ≡ done false v
          → ⊥
      after_login (done c u) s r =
          let kept = rw s at ((Keeps-call shrinks.order again).at w) in
          elim (Bool-cases (c == return_code authentication_success)) [
            | inl yes' ↦ serve_loop_total fuel u v (omega (arith, kept)) (rw yes' at r)
            | inr no' ↦ let x : done true u ≡ done false v = rw no' at r in cc
          ]
      after_login (returned c u) s r = cc
      after_login (thrown c u) s r = cc
      after_login (undefined u) s r = cc

  not_caught : (o : Outcome Bool) (v : World) → caught o ≡ done false v → o ≡ done false v
  unfolding caught
  not_caught (done b u) v r = r
  not_caught (returned c u) v r = cc
  not_caught (thrown c u) v r = cc
  not_caught (undefined u) v r = cc

  -- The whole thread ends, whatever the peer sends, with more fuel than bytes to come: it never
  -- stops for want of fuel. The authentication is only assumed not to put bytes back.
  pub run_total :
      (fuel : ℕ) (w v : World) → length w.incoming < fuel → run p authenticate fuel w ≢ done false v
  unfolding run
  run_total fuel w v h e =
      run_body_total fuel w v h (not_caught (run_body p authenticate fuel w) v e)
