-- ===== src/Steps/Outcomes/Agreeing.antt =====
-- What the steps with keys say of the values that they yield, and of the session key.
use mathlib.Core.Option
use secure_cloud_storage.Common.{
  ℕ, ◌≡◌, refl, Bool, true, false, ◌&&◌, Option, none, some, take, if◌then◌else◌,
}
use secure_cloud_storage.Config.{aes_key_len}
use secure_cloud_storage.Memory.{Bytes}
use secure_cloud_storage.World.{Platform, World, M, pure, modify}
use secure_cloud_storage.Channel.{attempt, attempts}
use secure_cloud_storage.Credentials.{
  Credentials, misuse, Serialized, unmade, released, made, Derived, unallocated, failed, derived,
  generate_ephemeral_key, written, serialize_ephemeral_key, cut, deserialize_ephemeral_key,
  derive_shared_secret, secret_of, take_session_key, text_of, decrypt_signature,
}
use secure_cloud_storage.Steps.Outcomes.Judging.{Condition, Ends, IsJudged}
use secure_cloud_storage.Steps.Outcomes.Yielding.{
  Yields, Yields-any, Yields-pure, Yields-bind, Yields-if, Yields-undefined, Yields-leave,
}

-- The session key comes from an own key pair, which the n-th call of the generation has made and
-- whose public text is the first one, and from the peer's key with the second text.
pub record IsAgreed (c : Credentials) (own_text peer_text session_key : Bytes) : Type 0 where
  pub n : ℕ
  pub peer : Bytes
  pub secret : Bytes
  pub own_key : own_text ≡ c.key_text (c.key_pair n)
  pub peer_key : c.key_of peer_text ≡ some peer
  pub agreed : c.agree (c.key_pair n) peer ≡ some secret
  pub hashed : session_key ≡ take aes_key_len (c.sha256 secret)

module _ (p : Platform) (c : Credentials) where
  -- A key that was generated.
  abbrev pub IsGenerated : Option Bytes → Type 0
  IsGenerated none = Unit
  IsGenerated (some k) = (n : ℕ) × (k ≡ c.key_pair n)

  -- A key that was read from the text.
  abbrev pub IsRead : Bytes → Option Bytes → Type 0
  IsRead text none = Unit
  IsRead text (some k) = c.key_of text ≡ some k

  -- The outcome of a derivation from the two keys.
  abbrev pub IsDerived : Option Bytes → Option Bytes → Derived → Type 0
  IsDerived own peer unallocated = Unit
  IsDerived own peer failed = Unit
  IsDerived own peer (derived s) =
      (k : Bytes) × (q : Bytes) × (own ≡ some k) × (peer ≡ some q) × (c.agree k q ≡ some s)

  abbrev pub IsWritten : Option Bytes → Serialized → Type 0
  IsWritten text unmade = Unit
  IsWritten text released = Unit
  IsWritten text (made t) = text ≡ some t

  generated : (b : Bool) (n : ℕ) → IsGenerated (if b then some (c.key_pair n) else none)
  generated true n = (n, refl)
  generated false n = tt

  pub generate_ephemeral_key-Yields :
      (parameters : Bool) → Yields IsGenerated (generate_ephemeral_key p c parameters)
  unfolding generate_ephemeral_key
  generate_ephemeral_key-Yields parameters = record {
    at = λ w.
        (Yields-bind (λ ok. Unit) (Yields-any (attempts p 3))
            (λ ok _. Yields-pure IsGenerated _ (generated (parameters && ok) w.calls))).at
          w;
  }

  -- The text that is cut out.
  abbrev IsCut : Bytes → Option Bytes → Type 0
  IsCut text none = Unit
  IsCut text (some t) = t ≡ text

  cut-Yields : (field : Bytes) (size n : ℕ) → Yields (IsCut (take n field)) (cut field size n)
  unfolding cut
  cut-Yields field size n =
      let V = IsCut (take n field) in
      Yields-if _ (Yields-pure V none tt)
        (Yields-if _ (Yields-undefined V) (Yields-pure V (some (take n field)) refl))

  key_back :
      (text : Bytes) (t : Option Bytes) (ok : Bool)
      → IsCut text t
      → IsRead text (elim t [ none ↦ none | some t ↦ if ok then c.key_of t else none ])
  key_back text none ok h = tt
  key_back text (some t) false h = tt
  key_back text (some t) true h = rw h (same (c.key_of text) refl)
    where
      same : (o : Option Bytes) → c.key_of text ≡ o → IsRead text o
      same none e = tt
      same (some k) e = e

  pub deserialize_ephemeral_key-Yields :
      (field : Bytes) (n : ℕ)
      → Yields (IsRead (take n field)) (deserialize_ephemeral_key p c field n)
  unfolding deserialize_ephemeral_key
  deserialize_ephemeral_key-Yields field n =
      let text = take n field in
      Yields-bind (λ opened. Unit) (Yields-any (attempt p))
        (λ opened _. Yields-if _ (Yields-pure (IsRead text) none tt) (
          Yields-bind (IsCut text) (cut-Yields field _ n) (λ t h.
            Yields-bind (λ ok. Unit) (Yields-any (attempt p))
              (λ ok _. Yields-pure (IsRead text) _ (key_back text t ok h)))))

  pub derive_shared_secret-Yields :
      (own peer : Option Bytes) → Yields (IsDerived own peer) (derive_shared_secret p c own peer)
  unfolding derive_shared_secret
  derive_shared_secret-Yields none peer = Yields-pure (IsDerived none peer) unallocated tt
  derive_shared_secret-Yields (some k) none = Yields-pure (IsDerived (some k) none) unallocated tt
  derive_shared_secret-Yields (some k) (some q) =
      let V = IsDerived (some k) (some q) in
      Yields-bind (λ ok. Unit) (Yields-any (attempts p 3))
        (λ prepared _. Yields-if _ (Yields-pure V unallocated tt) (
          Yields-bind (λ ok. Unit) (Yields-any (attempt p))
            (λ sized _. Yields-if _ (Yields-undefined V) (
              Yields-bind (λ ok. Unit) (Yields-any (attempt p))
                (λ ok _. Yields-pure V _ (secret k q ok (c.agree k q) refl))))))
    where
      secret :
          (k q : Bytes) (ok : Bool) (o : Option Bytes)
          → c.agree k q ≡ o
          → IsDerived
              (some k)
              (some q)
              (elim o [ none ↦ failed | some s ↦ if ok then derived s else failed ])
      secret k q ok none e = tt
      secret k q false (some s) e = tt
      secret k q true (some s) e = (k, q, refl, refl, e)

  text_back :
      (opened ok read : Bool) (text : Option Bytes)
      → IsWritten text (elim text [
        | none ↦ unmade
        | some t ↦ if opened && ok then (if read then made t else released) else unmade
      ])
  text_back opened ok read none = tt
  text_back opened ok read (some t) = by_success (opened && ok) read
    where
      by_success :
          (b r : Bool) → IsWritten (some t) (if b then (if r then made t else released) else unmade)
      by_success false r = tt
      by_success true false = tt
      by_success true true = refl

  pub serialize_ephemeral_key-Yields :
      (key : Option Bytes)
      → Yields (IsWritten (Option.map c.key_text key)) (serialize_ephemeral_key p c key)
  unfolding serialize_ephemeral_key written
  serialize_ephemeral_key-Yields key =
      let text = Option.map c.key_text key in
      Yields-bind (λ opened. Unit) (Yields-any (attempt p))
        (λ opened _.
          Yields-bind (λ ok. Unit) (Yields-any (attempt p))
            (λ ok _.
              Yields-bind (λ read. Unit) (Yields-any (attempt p))
                (λ read _. Yields-pure (IsWritten text) _ (text_back opened ok read text))))

  pub secret_of-Yields : (d : Derived) → Yields (λ s. d ≡ derived s) (secret_of p c d)
  unfolding secret_of
  secret_of-Yields unallocated = Yields-undefined (λ s. unallocated ≡ derived s)
  secret_of-Yields failed = Yields-leave (λ s. failed ≡ derived s) _
  secret_of-Yields (derived s) = Yields-pure (λ s'. derived s ≡ derived s') s refl

  pub text_of-Yields : (s : Serialized) → Yields (λ t. s ≡ made t) (text_of p c s)
  unfolding text_of
  text_of-Yields unmade = Yields-leave (λ t. unmade ≡ made t) _
  text_of-Yields released = Yields-undefined (λ t. released ≡ made t)
  text_of-Yields (made t) = Yields-pure (λ t'. made t ≡ made t') t refl

  pub decrypt_signature-Yields :
      (key aad iv tag cipher : Bytes)
      → Yields
          (λ s. p.unseal key iv aad tag cipher ≡ some s)
          (decrypt_signature p c key aad iv tag cipher)
  unfolding decrypt_signature
  decrypt_signature-Yields key aad iv tag cipher =
      let V : Bytes → Type 0 = λ s. p.unseal key iv aad tag cipher ≡ some s in
      Yields-bind (λ ok. Unit) (Yields-any (attempts p 5))
        (λ ok _. Yields-if ok (by_result (p.unseal key iv aad tag cipher) refl) (Yields-leave V _))
    where
      by_result :
          (o : Option Bytes)
          → p.unseal key iv aad tag cipher ≡ o
          → Yields
              (λ s. p.unseal key iv aad tag cipher ≡ some s)
              (elim o as (λ _. M Bytes) [ none ↦ misuse | some s ↦ pure s ])
      by_result none e = Yields-undefined (λ s. p.unseal key iv aad tag cipher ≡ some s)
      by_result (some s) e = Yields-pure (λ s. p.unseal key iv aad tag cipher ≡ some s) s e

  pub take_session_key-Ends :
      (Good : World → Type 0) (secret : Bytes) (F G : Condition)
      → ((name : Bytes) (n : ℕ) (key : Bytes)
          → F name n key
          → G name n (take aes_key_len (c.sha256 secret)))
      → Ends (IsJudged Good) F G (take_session_key p c secret)
  unfolding take_session_key modify
  take_session_key-Ends Good secret F G h = record {
    at = λ w i. h w.username w.counter w.session_key i;
  }

  -- What the steps have yielded, together.
  pub from_steps :
      (own peer : Option Bytes) (d : Derived) (secret peer_text text : Bytes)
      → IsGenerated own
      → IsRead peer_text peer
      → IsDerived own peer d
      → d ≡ derived secret
      → Option.map c.key_text own ≡ some text
      → IsAgreed c text peer_text (take aes_key_len (c.sha256 secret))
  from_steps own peer d secret peer_text text generated' read derived' is_secret is_text =
      let (k, q, own_eq, peer_eq, agreed) = rw is_secret at derived' in
      let (n, made_by) = rw own_eq at generated' in
      record {
        n = n;
        peer = q;
        secret = secret;
        own_key = cc;
        peer_key = rw peer_eq at read;
        agreed = rw made_by at agreed;
        hashed = refl;
      }
