-- ===== src/Channel.antt =====
-- src/utils/SocketManager.cpp (`send`, `receive`), src/crypto/AesGcm.cpp (`encrypt`, `decrypt`) and
-- `Generic::encrypt`, `Generic::decrypt` of src/messages/Generic.cpp, with the ways in which the
-- handlers use them.
pub mod Lengths
pub mod Exchange
use secure_cloud_storage.Common.{
  ℕ, zero, suc, ◌+◌, ◌%◌, ◌^◌, ltb, Bool, true, false, Option, none, some, [], ◌∷◌, ◌++◌, length,
  take, drop, ◌==◌, if◌then◌else◌,
}
use secure_cloud_storage.Config.{iv_len}
use secure_cloud_storage.Codes.{return_code, encryption_failure, send_failure}
use secure_cloud_storage.Codes.{receive_failure, decryption_failure}
use secure_cloud_storage.Memory.{Bytes}
use secure_cloud_storage.Messages.Generic
use secure_cloud_storage.Messages.Generic.{Generic, generic}
use secure_cloud_storage.World.{
  Platform, World, closed, failed, M, done, undefined, pure, world, ◌>>=◌, ◌>>◌, require,
  require_some,
}

-- `::recv(..., n, MSG_WAITALL)`: it waits for `n` bytes, and delivers fewer only at the end of the
-- stream. `none` is -1.
unfoldable pub recv : ℕ → World → Option ℕ
recv n w =
    let count = length (take n w.incoming) in
    if count == 0 then elim w.ending [ closed ↦ some 0 | failed ↦ none ] else some count

pub data Status : Type 0 where
  received : Status
  broken : Status
  gone : Status

-- The three results of `receive`: 0, -1 and -2.
unfoldable pub status_of : Option ℕ → ℕ → Status
status_of none n = broken
status_of (some count) n = if count == 0 then gone else if count == n then received else broken

abbrev pub not_broken : Status → Bool
not_broken broken = false
not_broken received = true
not_broken gone = true

-- The conversion of a size to `int`: `none` for a negative result.
unfoldable pub int_of : ℕ → Option ℕ
int_of n = if ltb (n % 2 ^ 32) (2 ^ 31) then some (n % 2 ^ 32) else none

module _ (p : Platform) where
  -- The status, and what the caller's new buffer holds afterwards.
  unfoldable pub receive : ℕ → M (Status × Bytes)
  unfolding recv status_of
  receive n w =
      let got = take n w.incoming in
      done (status_of (recv n w) n, got ++ drop (length got) (p.fresh n))
        (record w { incoming = drop n w.incoming })

  -- A call of the system or of OpenSSL that may fail.
  unfoldable pub attempt : M Bool
  attempt w = done (p.succeeds w.calls) (record w { calls = w.calls + 1 })

  -- `true` for 0, `false` for -1. A blocking socket takes all the bytes that it is given.
  unfoldable pub send : Bytes → ℕ → M Bool
  send buffer n w = done (p.succeeds w.calls) (record w {
    calls = w.calls + 1;
    outgoing = if p.succeeds w.calls then w.outgoing ++ (take n buffer ∷ []) else w.outgoing;
  })

  unfoldable pub random : ℕ → M Bytes
  random len w = done (p.rand_bytes w.calls len) (record w { calls = w.calls + 1 })

  -- So many calls that may fail, up to the first that does.
  unfoldable pub attempts : ℕ → M Bool
  unfolding attempt
  attempts zero = pure true
  attempts (suc n) = do ok ← attempt; elim ok [ true ↦ attempts n | false ↦ pure false ]

  -- `AesGcm::encrypt`: `RAND_bytes` for the vector, the context, its initialisation, the associated
  -- data, the plaintext, the final block and the tag. The result is the vector, the ciphertext and
  -- the tag, `none` for -1.
  unfoldable pub aes_encrypt : Bytes → Bytes → Bytes → M (Option (Bytes × Bytes × Bytes))
  aes_encrypt key aad plain = do
    iv ← random iv_len
    ok ← attempts 7
    let (cipher, tag) = p.seal key iv aad plain
    pure (if ok then some (iv, cipher, tag) else none)

  -- `AesGcm::decrypt`: the context, its initialisation, the associated data, the ciphertext and the
  -- expected tag; then the final call, which compares the tags.
  unfoldable pub aes_decrypt : Bytes → Bytes → Bytes → Bytes → Bytes → M (Option Bytes)
  aes_decrypt key aad iv tag cipher = do
    ok ← attempts 5
    pure (if ok then p.unseal key iv aad tag cipher else none)

  -- `Generic::encrypt` of the first `len` bytes of a buffer, where `len` is narrowed to an `int`. A
  -- negative length is undefined: the plaintext is wiped at that length. So is a failed encryption:
  -- `handleErrorEncrypt` has deleted the vector that `cleanIV` wipes and deletes again.
  unfoldable pub encrypt : Bytes → Generic → Bytes → ℕ → M (Option Generic)
  unfolding int_of
  encrypt key m buffer len = elim (int_of len) [
    | none ↦ λ w. undefined w
    | some n ↦ do
      sealed ← aes_encrypt key m.aad (take n buffer)
      elim sealed [
        | none ↦ λ w. undefined w
        | some (iv, cipher, tag) ↦ pure (
            some (record m {
              iv = iv;
              tag = tag;
              ciphertext = cipher;
              ciphertext_len = length cipher;
            }))
      ]
  ]

  -- `Generic::decrypt`, whose length is the `int` that `Generic::deserialize` keeps. No buffer of a
  -- negative length is allocated: the result is -1.
  unfoldable pub decrypt : Bytes → Generic → M (Option Bytes)
  unfolding int_of
  decrypt key m = elim (int_of m.ciphertext_len) [
    | none ↦ pure none
    | some n ↦ aes_decrypt key m.aad m.iv m.tag (take n m.ciphertext)
  ]

  unfoldable pub send_sealed : Generic → ℕ → M (Unit {0})
  send_sealed m len = do
    let buffer = Generic.serialize m (p.fresh (Generic.get_message_size m.ciphertext_len))
    ok ← send buffer (Generic.get_message_size len)
    require ok (return_code send_failure)

  -- The handlers' way to send a message: a new envelope with the current counter, encrypted,
  -- serialized and sent, with a return at the first failure.
  unfoldable pub send_message : Bytes → ℕ → M (Unit {0})
  unfolding send_sealed
  send_message buffer len = do
    w ← world
    sealed ← encrypt w.session_key (generic w.counter) buffer len
    m ← require_some sealed (return_code encryption_failure)
    send_sealed m len

  -- The handlers' way to receive one inside an operation. Only -1 counts as a failure there: after
  -- a closed connection the buffer is used as it is.
  unfoldable pub receive_message : ℕ → M (Generic × Bytes)
  receive_message len = do
    (status, buffer) ← receive (Generic.get_message_size len)
    require (not_broken status) (return_code receive_failure)
    let m = Generic.deserialize buffer len
    w ← world
    opened ← decrypt w.session_key m
    plain ← require_some opened (return_code decryption_failure)
    pure (m, plain)
