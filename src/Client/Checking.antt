-- ===== src/Client/Checking.antt =====
-- What `check_server` of the client's authentication in src/modules/Client.cpp has checked.
use secure_cloud_storage.Common.{
  ℕ, ◌≡◌, ◌≢◌, ◌⊎◌, inl, inr, refl, sym, Bool, true, false, ◌&&◌, Option, none, some,
}
use secure_cloud_storage.Memory.{Bytes}
use secure_cloud_storage.Messages.Authentication.{AuthenticationM3}
use secure_cloud_storage.World.{Platform, M}
use secure_cloud_storage.Channel.{attempts}
use secure_cloud_storage.Credentials.{
  Credentials, is_ds_verified, verify_certificate, get_public_key, deserialize_certificate,
}
use secure_cloud_storage.Steps.Outcomes.{Quiet, quiet_rules}
use secure_cloud_storage.Steps.Outcomes.Yielding.{
  Yields, Yields-any, Yields-pure, Yields-require, Yields-bind,
}
use secure_cloud_storage.Steps.Outcomes.Keys.{key_rules}
use secure_cloud_storage.Client.Authentication.{check_server}

-- The server has shown a certificate that the CA's store accepts, and under the key in it a
-- signature of two texts was verified.
pub record IsServer (c : Credentials) (text signature : Bytes) : Type 0 where
  pub certificate : Bytes
  pub key : Bytes
  pub trusted : c.trusted certificate ≡ true
  pub certified : c.certificate_key certificate ≡ some key
  pub verified : c.verifies key text signature ≡ true

-- What a positive result of the verification of a certificate says.
abbrev Means : Credentials → Option Bytes → Bool → Type 0
Means c none b = b ≡ false
Means c (some x) b = (b ≡ false) ⊎ (c.trusted x ≡ true)

meaning :
    (c : Credentials) (certificate : Option Bytes) (ok : Bool)
    → Means c certificate (elim certificate [ none ↦ false | some x ↦ ok && c.trusted x ])
meaning c none ok = refl
meaning c (some x) false = inl refl
meaning c (some x) true = by_trust (c.trusted x)
  where
    by_trust : (b : Bool) → (b ≡ false) ⊎ (b ≡ true)
    by_trust true = inr refl
    by_trust false = inl refl

false-true : false ≢ true
false-true h = cc

by_key :
    (c : Credentials) (p : Platform) (text signature x : Bytes) (k : Option Bytes)
    → c.trusted x ≡ true
    → c.certificate_key x ≡ k
    → is_ds_verified p c text signature k ≡ true
    → IsServer c text signature
unfolding is_ds_verified
by_key c p text signature x none trusted certified valid = absurd (false-true valid)
by_key c p text signature x (some key) trusted certified valid = record {
  certificate = x;
  key = key;
  trusted = trusted;
  certified = certified;
  verified = valid;
}

by_certificate :
    (c : Credentials) (p : Platform) (text signature : Bytes) (certificate : Option Bytes)
    → Means c certificate true
    → is_ds_verified p c text signature (get_public_key p c certificate) ≡ true
    → IsServer c text signature
unfolding get_public_key
by_certificate c p text signature none means valid = absurd (false-true (sym means))
by_certificate c p text signature (some x) (inl never) valid = absurd (false-true (sym never))
by_certificate c p text signature (some x) (inr trusted) valid =
    by_key c p text signature x (c.certificate_key x) trusted refl valid

module _ (p : Platform) (c : Credentials) (private_key : Bytes) (again : M ℕ) where
  verify_certificate-Yields :
      (certificate : Option Bytes)
      → Yields (Means c certificate) (verify_certificate p c certificate)
  unfolding verify_certificate
  verify_certificate-Yields certificate =
      Yields-bind (λ ok. Unit) (Yields-any (attempts p 2))
        (λ ok _. Yields-pure (Means c certificate) _ (meaning c certificate ok))

  pub check_server-Yields :
      (m3 : AuthenticationM3) (text signature : Bytes)
      → Yields
          (λ _. IsServer c text signature)
          (check_server p c private_key again m3 text signature)
  unfolding check_server
  check_server-Yields m3 text signature =
      Yields-bind (λ certificate. Unit) (Yields-any (deserialize_certificate p c _ _))
        (λ certificate _.
          Yields-bind (Means c certificate) (verify_certificate-Yields certificate)
            (λ trusted means.
              Yields-bind (λ _. Means c certificate true)
                (Yields-require trusted _ (λ h. rw h at means))
                (λ _ means'.
                  Yields-require _ _ (by_certificate c p text signature certificate means'))))

  pub check_server-Quiet :
      (m3 : AuthenticationM3) (text signature : Bytes)
      → Quiet (check_server p c private_key again m3 text signature)
  unfolding check_server
  check_server-Quiet m3 text signature = search (quiet_rules, key_rules) depth 30
