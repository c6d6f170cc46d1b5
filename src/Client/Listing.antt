-- ===== src/Client/Listing.antt =====
-- `Client::listRequest` of src/modules/Client.cpp, given the server's two answers.
use secure_cloud_storage.Common.{
  ℕ, ◌+◌, ◌^◌, ◌<◌, ◌≡◌, ◌≢◌, refl, ap, ◌∙◌, true, false, some, List, [], ◌∷◌, ◌++◌, length, arith,
  ◌==◌, Bool-cases, inl, inr,
}
use secure_cloud_storage.Config.{max_counter_value}
use secure_cloud_storage.Codes.{message_code, Message, list_ack, list_response}
use secure_cloud_storage.Memory.{Bytes, c_string}
use secure_cloud_storage.Memory.Laws.{NonNul}
use secure_cloud_storage.Messages.Listing
use secure_cloud_storage.Messages.Listing.{ListM2, list_m2}
use secure_cloud_storage.Files.Listing.{split_commas}
use secure_cloud_storage.World.{Platform, IsLawful, World, M, done, require, to_string-done, ◌>>=◌}
use secure_cloud_storage.Steps.Counter.{counted_to}
use secure_cloud_storage.Steps.Replies.{simple_packet, send_simple-sent}
use secure_cloud_storage.Server.Listing.{Carries}
use secure_cloud_storage.Client.Requests.{getlines, list_request}
use secure_cloud_storage.Client.Replies.{receive_reply-done}

-- None of the names is empty.
abbrev pub AllFilled : List Bytes → Type 0
AllFilled [] = Unit
AllFilled (name ∷ names) = (name ≢ []) × AllFilled names

-- Where no name is empty, the lines that `getline` finds are the names between the commas.
pub getlines-split_commas :
    (line s : Bytes) → AllFilled (split_commas line s) → getlines line s ≡ split_commas line s
unfolding getlines split_commas
getlines-split_commas [] [] h = absurd (h.0 refl)
getlines-split_commas (c ∷ line) [] h = refl
getlines-split_commas line (d ∷ s) h = elim (Bool-cases (d == b',')) [
  | inl comma ↦
      rw (comma, getlines, split_commas)
        (ap (λ l. line ∷ l) (getlines-split_commas [] s (rw (comma, split_commas) at h).1))
  | inr other ↦
      rw (other, getlines, split_commas)
        (getlines-split_commas (line ++ (d ∷ [])) s (rw (other, split_commas) at h))
]

pub c_string-terminated : (s : Bytes) → NonNul s → c_string (s ++ (0 ∷ [])) ≡ some s
unfolding c_string
c_string-terminated [] h = refl
c_string-terminated (c ∷ s) h = ground (arith, c_string-terminated s h.1)

m2_code : (n : ℕ) → (list_m2 n).message_code ≡ message_code list_ack
unfolding list_m2
m2_code n = refl

m2_size : (n : ℕ) → (list_m2 n).list_size ≡ n
unfolding list_m2
m2_size n = refl

module _ (p : Platform) (works : (n : ℕ) → p.succeeds n ≡ true) (lawful : IsLawful p)
    (authenticate : M ℕ) where
  -- The packet of the request.
  abbrev pub request_packet : World → Bytes
  request_packet w =
      simple_packet p works lawful authenticate w.session_key w.counter
        (message_code Message.list_request) w.calls

  pub list_request-done :
      (text first second size list : Bytes) (w : World)
      → let n = length text + 1 in
        NonNul text
        → length text + 2 < 2 ^ 31
        → Carries p w.session_key (w.counter + 1) Listing.get_message_size_m2 size first
        → Listing.deserialize_m2 size ≡ list_m2 n
        → Carries p w.session_key (w.counter + 2) (Listing.get_message_size_m3 n) list second
        → (Listing.deserialize_m3 list n).file_list ≡ text ++ (0 ∷ [])
        → (Listing.deserialize_m3 list n).message_code ≡ message_code list_response
        → w.incoming ≡ first ++ (second ++ [])
        → w.counter + 2 < max_counter_value
        → list_request p authenticate w
          ≡ done (getlines [] text) (record w {
            incoming = [];
            counter = w.counter + 3;
            calls = w.calls + 10 + 5 + 5;
            outgoing = w.outgoing ++ (request_packet w ∷ []);
          })
  unfolding list_request require ◌>>=◌
  list_request-done text first second size list w nonnul short carries announced carries' files
        coded next room =
      let n = length text + 1 in
      let u1 = record w {
        calls = w.calls + 10;
        outgoing = w.outgoing ++ (request_packet w ∷ []);
      } in
      let u2 = record u1 { counter = w.counter + 1 } in
      let got =
        receive_reply-done p works lawful authenticate Listing.get_message_size_m2 first
          (second ++ []) size u2 next carries.size (omega arith) carries.at_counter carries.opens in
      let u3 = record u2 { incoming = second ++ []; calls = w.calls + 10 + 5 } in
      let u4 = record u3 { counter = w.counter + 2 } in
      let code_eq = ap (λ (m : ListM2). m.message_code) announced ∙ m2_code n in
      let size_eq : (Listing.deserialize_m2 size).list_size ≡ n =
        ap (λ (m : ListM2). m.list_size) announced ∙ m2_size n in
      let never : (n == 0) ≡ false = ground arith in
      let got' =
        receive_reply-done p works lawful authenticate (Listing.get_message_size_m3 n) second []
          list u4 refl carries'.size (omega arith) carries'.at_counter carries'.opens in
      let u5 = record u4 { incoming = []; calls = u4.calls + 5 } in
      let u6 = record u5 { counter = w.counter + 3 } in
      rw
        (
          send_simple-sent p works lawful authenticate (message_code Message.list_request) w,
          counted_to p authenticate u1 (w.counter + 1) (omega arith) refl,
          got,
          counted_to p authenticate u3 (w.counter + 2) (omega arith) (omega arith),
          code_eq,
          size_eq,
          never,
        )
        (rw
          (
            got',
            counted_to p authenticate u5 (w.counter + 3) (omega arith) (omega arith),
            coded,
            to_string-done _ text u6 (ap c_string files ∙ c_string-terminated text nonnul),
          )
          refl)
