-- ===== src/Steps/Outcomes.antt =====
-- Rules for what a computation comes to: `Ends` says which worlds it may go on in, and with which
-- codes it may return. `Quiet` is the common case of a step that leaves the user, the counter and
-- the session key alone and returns, if at all, with another code than the one for a successful authentication.
pub mod Judging
pub mod Keys
pub mod Yielding
pub mod Agreeing
use secure_cloud_storage.Common.{
  ℕ, zero, suc, ◌+◌, ◌<◌, ◌≡◌, ◌≢◌, refl, sym, ◌∙◌, arith, Bool, true, false, take, Option, none,
  some, arith, if◌then◌else◌, ◌==◌,
}
use secure_cloud_storage.Config.{max_counter_value}
use secure_cloud_storage.Codes.{
  return_code, error_code, authentication_success, username_not_found, authentication_failure,
  encryption_failure, send_failure, receive_failure, decryption_failure, wrong_counter,
}
use secure_cloud_storage.Memory.{Bytes, c_string}
use secure_cloud_storage.World.{
  Platform, World, M, Outcome, done, returned, thrown, undefined, and_then, pure, leave, throw,
  world, modify, require, require_some, to_string, ◌>>=◌,
}
use secure_cloud_storage.Messages.Generic.{Generic}
use secure_cloud_storage.Channel.{
  int_of, receive, send, attempt, attempts, random, aes_encrypt, encrypt, decrypt, aes_decrypt,
  send_sealed, send_message, aes_decrypt, encrypt, decrypt, send_sealed, send_message,
}
use secure_cloud_storage.Steps.{increment_counter}
use secure_cloud_storage.Steps.Counter.{increment_counter-done}

abbrev pub accepted : ℕ
accepted = return_code authentication_success

abbrev pub Calm : {A : Type 0} → World → Outcome A → Type 0
Calm w (done a v) =
    (v.username ≡ w.username) × (v.counter ≡ w.counter) × (v.session_key ≡ w.session_key)
Calm w (returned c v) = c ≢ accepted
Calm w (thrown c v) = Unit
Calm w (undefined v) = Unit

pub record Quiet {A : Type 0} (m : M A) : Type 0 where
  pub at : (w : World) → Calm w (m w)

Calm-later :
    {B : Type 0} (w v : World) (o : Outcome B)
    → v.username ≡ w.username
    → v.counter ≡ w.counter
    → v.session_key ≡ w.session_key
    → Calm v o
    → Calm w o
Calm-later w v (done b u) name count key (name', count', key') =
    (name' ∙ name, count' ∙ count, key' ∙ key)
Calm-later w v (returned c u) name count key h = h
Calm-later w v (thrown c u) name count key h = tt
Calm-later w v (undefined u) name count key h = tt

Calm-and_then :
    {A B : Type 0} (w : World) (o : Outcome A) (f : A → M B)
    → Calm w o
    → ((a : A) → Quiet (f a))
    → Calm w (and_then o f)
Calm-and_then w (done a v) f (name, count, key) k =
    Calm-later w v (f a v) name count key ((k a).at v)
Calm-and_then w (returned c v) f h k = h
Calm-and_then w (thrown c v) f h k = tt
Calm-and_then w (undefined v) f h k = tt

pub Quiet-bind :
    {A B : Type 0} {m : M A} {f : A → M B} → Quiet m → ((a : A) → Quiet (f a)) → Quiet (m >>= f)
unfolding ◌>>=◌
Quiet-bind {m = m} {f = f} qm qf = record { at = λ w. Calm-and_then w (m w) f (qm.at w) qf }

pub Quiet-pure : {A : Type 0} (a : A) → Quiet (pure a)
Quiet-pure a = record { at = λ w. (refl, refl, refl) }

pub Quiet-world : Quiet world
Quiet-world = record { at = λ w. (refl, refl, refl) }

pub Quiet-undefined : {A : Type 0} → Quiet {A = A} (λ w. undefined w)
Quiet-undefined = record { at = λ w. tt }

pub Quiet-leave : {A : Type 0} (c : ℕ) → c ≢ accepted → Quiet (leave {A = A} c)
Quiet-leave c h = record { at = λ w. h }

pub Quiet-throw : {A : Type 0} (c : ℕ) → Quiet (throw {A = A} c)
Quiet-throw c = record { at = λ w. tt }

pub Quiet-require : (b : Bool) (c : ℕ) → c ≢ accepted → Quiet (require b c)
unfolding require
Quiet-require true c h = record { at = λ w. (refl, refl, refl) }
Quiet-require false c h = record { at = λ w. h }

pub Quiet-require_some :
    {A : Type 0} (o : Option A) (c : ℕ) → c ≢ accepted → Quiet (require_some o c)
unfolding require_some
Quiet-require_some none c h = record { at = λ w. h }
Quiet-require_some (some a) c h = record { at = λ w. (refl, refl, refl) }

pub Quiet-to_string : (field : Bytes) → Quiet (to_string field)
unfolding to_string
Quiet-to_string field = record { at = λ w. stops w (c_string field) }
  where
    stops :
        (w : World) (o : Option Bytes)
        → Calm w (elim o as (λ _. Outcome Bytes) [ none ↦ undefined w | some s ↦ done s w ])
    stops w none = tt
    stops w (some s) = (refl, refl, refl)

pub Quiet-if : {A : Type 0} (b : Bool) {m n : M A} → Quiet m → Quiet n → Quiet (if b then m else n)
Quiet-if true qm qn = qm
Quiet-if false qm qn = qn

pub Quiet-elim :
    {A : Type 0} (b : Bool) {m n : M A}
    → Quiet m
    → Quiet n
    → Quiet (elim b as (λ _. M A) [ true ↦ m | false ↦ n ])
Quiet-elim true qm qn = qm
Quiet-elim false qm qn = qn

pub Quiet-option :
    {A B : Type 0} (o : Option A) {m : M B} {f : A → M B}
    → Quiet m
    → ((a : A) → Quiet (f a))
    → Quiet (elim o as (λ _. M B) [ none ↦ m | some a ↦ f a ])
Quiet-option none qm qf = qm
Quiet-option (some a) qm qf = qf a

-- The codes of the failures.
pub username_not_found_other : error_code username_not_found ≢ accepted
username_not_found_other = omega arith

pub authentication_failure_other : return_code authentication_failure ≢ accepted
authentication_failure_other = omega arith

pub encryption_failure_other : return_code encryption_failure ≢ accepted
encryption_failure_other = omega arith

pub send_failure_other : return_code send_failure ≢ accepted
send_failure_other = omega arith

pub receive_failure_other : return_code receive_failure ≢ accepted
receive_failure_other = omega arith

pub decryption_failure_other : return_code decryption_failure ≢ accepted
decryption_failure_other = omega arith

pub wrong_counter_other : return_code wrong_counter ≢ accepted
wrong_counter_other = omega arith

module _ (p : Platform) where
  pub Quiet-attempt : Quiet (attempt p)
  unfolding attempt
  Quiet-attempt = record { at = λ w. (refl, refl, refl) }

  pub Quiet-random : (n : ℕ) → Quiet (random p n)
  unfolding random
  Quiet-random n = record { at = λ w. (refl, refl, refl) }

  pub Quiet-receive : (n : ℕ) → Quiet (receive p n)
  unfolding receive
  Quiet-receive n = record { at = λ w. (refl, refl, refl) }

  pub Quiet-send : (buffer : Bytes) (n : ℕ) → Quiet (send p buffer n)
  unfolding send
  Quiet-send buffer n = record { at = λ w. (refl, refl, refl) }

  pub Quiet-attempts : (n : ℕ) → Quiet (attempts p n)
  unfolding attempts
  Quiet-attempts zero = Quiet-pure true
  Quiet-attempts (suc n) =
      Quiet-bind Quiet-attempt (λ ok. Quiet-elim ok (Quiet-attempts n) (Quiet-pure false))

  pub Quiet-aes_encrypt : (key aad plain : Bytes) → Quiet (aes_encrypt p key aad plain)
  unfolding aes_encrypt
  Quiet-aes_encrypt key aad plain =
      Quiet-bind (Quiet-random 12) (λ iv. Quiet-bind (Quiet-attempts 7) (λ ok. Quiet-pure _))

  pub Quiet-aes_decrypt :
      (key aad iv tag cipher : Bytes) → Quiet (aes_decrypt p key aad iv tag cipher)
  unfolding aes_decrypt
  Quiet-aes_decrypt key aad iv tag cipher = Quiet-bind (Quiet-attempts 5) (λ ok. Quiet-pure _)

  Quiet-encrypt :
      (key : Bytes) (m : Generic) (buffer : Bytes) (len : ℕ) → Quiet (encrypt p key m buffer len)
  unfolding encrypt
  Quiet-encrypt key m buffer len = Quiet-option (int_of len) Quiet-undefined (λ n.
      Quiet-bind (Quiet-aes_encrypt key m.aad (take n buffer))
        (λ sealed. Quiet-option sealed Quiet-undefined (λ s. Quiet-pure _)))

  pub Quiet-decrypt : (key : Bytes) (m : Generic) → Quiet (decrypt p key m)
  unfolding decrypt
  Quiet-decrypt key m =
      Quiet-option (int_of m.ciphertext_len) (Quiet-pure none)
        (λ n. Quiet-aes_decrypt key m.aad m.iv m.tag (take n m.ciphertext))

  Quiet-send_sealed : (m : Generic) (len : ℕ) → Quiet (send_sealed p m len)
  unfolding send_sealed
  Quiet-send_sealed m len =
      Quiet-bind (Quiet-send _ _) (λ ok. Quiet-require ok _ send_failure_other)

  pub Quiet-send_message : (buffer : Bytes) (len : ℕ) → Quiet (send_message p buffer len)
  unfolding send_message
  Quiet-send_message buffer len = Quiet-bind Quiet-world (λ w.
      Quiet-bind (Quiet-encrypt w.session_key _ buffer len) (λ sealed.
        Quiet-bind (Quiet-require_some sealed _ encryption_failure_other)
          (λ m. Quiet-send_sealed m len)))

pub ruleset quiet_rules = (
  Quiet-bind, Quiet-pure, Quiet-world, Quiet-undefined, Quiet-leave, Quiet-throw, Quiet-require,
  Quiet-require_some, Quiet-to_string, Quiet-if, Quiet-elim, Quiet-option, Quiet-attempt,
  Quiet-random, Quiet-receive, Quiet-send, Quiet-attempts, Quiet-aes_encrypt, Quiet-decrypt,
  username_not_found_other, authentication_failure_other, encryption_failure_other,
  send_failure_other, receive_failure_other, decryption_failure_other, wrong_counter_other,
)
