-- ===== src/Tests/Platform.antt =====
-- A platform for the tests: the cipher leaves the text as it is, and the tag is made of the key and
-- the associated data; no call fails and every new buffer is zero. And a login for the tests.
use secure_cloud_storage.Common.{
  ℕ, zero, ◌≡◌, refl, true, none, some, [], ◌∷◌, ◌++◌, length, take, replicate, arith, eq_bytes,
  eq_bytes_refl, eq_bytes_iff, if◌then◌else◌, Bool-cases, inl, inr, length-take, length-append,
  length-replicate,
}
use secure_cloud_storage.Memory.{Bytes}
use secure_cloud_storage.Files.{codes, fresh_entry}
use secure_cloud_storage.Codes.{return_code, authentication_success}
use secure_cloud_storage.World.{Platform, IsLawful, World, closed, M, returned}
use secure_cloud_storage.Server.Keeps.{Keeps}
use secure_cloud_storage.Server.Storage.Unchanged.{SameDisk}
use secure_cloud_storage.Server.Termination.{Shrinks}

abbrev pub tag_of : Bytes → Bytes → Bytes
tag_of key aad = take 16 (aad ++ (key ++ replicate 16 0))

abbrev pub toy : Platform
toy = record {
  seal = λ key iv aad plain. (plain, tag_of key aad);
  unseal = λ key iv aad tag cipher. if eq_bytes tag (tag_of key aad) then some cipher else none;
  rand_bytes = λ n len. replicate len 0;
  succeeds = λ n. true;
  fresh = λ len. replicate len 0;
}

toy_authentic :
    (key aad tag cipher plain : Bytes)
    → (if eq_bytes tag (tag_of key aad) then some cipher else none) ≡ some plain
    → ◌≡◌ {A = Bytes × Bytes} (plain, tag_of key aad) (cipher, tag)
toy_authentic key aad tag cipher plain h = elim (Bool-cases (eq_bytes tag (tag_of key aad))) [
  | inl same ↦
      let tags = (eq_bytes_iff tag (tag_of key aad)).0 same in
      let texts : some cipher ≡ some plain = rw same at h in cc
  | inr other ↦ let e : none ≡ some plain = rw other at h in cc
]

tag_length : (key aad : Bytes) → length (tag_of key aad) ≡ 16
tag_length key aad = omega (
  arith,
  length-take 16 (aad ++ (key ++ replicate 16 0)),
  length-append aad (key ++ replicate 16 0),
  length-append key (replicate 16 0),
  length-replicate 16 zero,
)

pub toy-IsLawful : IsLawful toy
toy-IsLawful = record {
  unseal-seal = λ key iv aad plain. rw (eq_bytes_refl (tag_of key aad)) refl;
  authentic = λ key iv aad tag cipher plain h. toy_authentic key aad tag cipher plain h;
  cipher_size = λ key iv aad plain. refl;
  tag_size = λ key iv aad plain. tag_length key aad;
  rand_size = λ n len. length-replicate len 0;
  fresh_size = λ len. length-replicate len 0;
}

-- A login that succeeds at once.
abbrev pub login : M ℕ
login w = returned (return_code authentication_success) w

pub login-SameDisk : Keeps SameDisk login
login-SameDisk = record { at = λ w. refl }

abbrev pub key : Bytes
key = replicate 16 7

-- A session of the user `eve`, whose directory holds two files.
abbrev pub session : World
session = record {
  username = codes "eve";
  counter = 5;
  session_key = key;
  incoming = [];
  ending = closed;
  outgoing = [];
  directories = codes "../data/eve" ∷ [];
  disk =
      (codes "../data/eve/a", fresh_entry (codes "one"))
      ∷ (codes "../data/eve/b", fresh_entry (codes "two"))
      ∷ [];
  calls = 0;
}

pub login-Shrinks : Keeps Shrinks login
login-Shrinks = record { at = λ w. omega arith }

-- A packet with the plaintext, sealed under the key at a counter below 256.
abbrev pub packet_at : Bytes → ℕ → Bytes → Bytes
packet_at k counter plain =
    let aad = 0 ∷ 0 ∷ 0 ∷ counter ∷ [] in replicate 12 0 ++ (aad ++ (tag_of k aad ++ plain))
