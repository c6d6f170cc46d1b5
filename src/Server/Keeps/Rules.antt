-- ===== src/Server/Keeps/Rules.antt =====
-- The rules of `Keeps`.
use secure_cloud_storage.Common.{ℕ, Bool, true, false, Option, none, some, if◌then◌else◌}
use secure_cloud_storage.Memory.{Bytes, c_string}
use secure_cloud_storage.World.{
  World, M, Outcome, done, returned, thrown, undefined, final, pure, ◌>>=◌, and_then, leave, throw,
  world, modify, require, require_some, call, to_string,
}
use secure_cloud_storage.Server.Keeps.{IsPreorder, Keeps}

module _ {R : World → World → Type 0} (pre : IsPreorder R) where
  Keeps-and_then :
      {A B : Type 0} (w : World) (o : Outcome A) (f : A → M B)
      → R w (final o)
      → ((a : A) → Keeps R (f a))
      → R w (final (and_then o f))
  Keeps-and_then w (done a v) f h k = pre.then_also w v _ h ((k a).at v)
  Keeps-and_then w (returned c v) f h k = h
  Keeps-and_then w (thrown c v) f h k = h
  Keeps-and_then w (undefined v) f h k = h

  pub Keeps-bind :
      {A B : Type 0} {m : M A} {f : A → M B}
      → Keeps R m
      → ((a : A) → Keeps R (f a))
      → Keeps R (m >>= f)
  unfolding ◌>>=◌
  Keeps-bind {m = m} {f = f} km kf = record { at = λ w. Keeps-and_then w (m w) f (km.at w) kf }

  pub Keeps-pure : {A : Type 0} (a : A) → Keeps R (pure a)
  Keeps-pure a = record { at = λ w. pre.same w }

  pub Keeps-leave : {A : Type 0} (c : ℕ) → Keeps R (leave {A = A} c)
  Keeps-leave c = record { at = λ w. pre.same w }

  pub Keeps-throw : {A : Type 0} (c : ℕ) → Keeps R (throw {A = A} c)
  Keeps-throw c = record { at = λ w. pre.same w }

  pub Keeps-world : Keeps R world
  Keeps-world = record { at = λ w. pre.same w }

  pub Keeps-modify : (f : World → World) → ((w : World) → R w (f w)) → Keeps R (modify f)
  unfolding modify
  Keeps-modify f h = record { at = λ w. h w }

  pub Keeps-require : (b : Bool) (c : ℕ) → Keeps R (require b c)
  unfolding require
  Keeps-require true c = record { at = λ w. pre.same w }
  Keeps-require false c = record { at = λ w. pre.same w }

  pub Keeps-require_some : {A : Type 0} (o : Option A) (c : ℕ) → Keeps R (require_some o c)
  unfolding require_some
  Keeps-require_some none c = record { at = λ w. pre.same w }
  Keeps-require_some (some a) c = record { at = λ w. pre.same w }

  pub Keeps-to_string : (field : Bytes) → Keeps R (to_string field)
  unfolding to_string
  Keeps-to_string field = record { at = λ w. stops w (c_string field) }
    where
      stops :
          (w : World) (o : Option Bytes)
          → R w (final (elim o as (λ _. Outcome Bytes) [ none ↦ undefined w | some s ↦ done s w ]))
      stops w none = pre.same w
      stops w (some s) = pre.same w

  pub Keeps-call : {m : M ℕ} → Keeps R m → Keeps R (call m)
  unfolding call
  Keeps-call {m = m} km = record { at = λ w. stops w (m w) (km.at w) }
    where
      stops :
          (w : World) (o : Outcome ℕ)
          → R w (final o)
          → R w (
              final (elim o as (λ _. Outcome ℕ) [
                | done a v ↦ done a v
                | returned c v ↦ done c v
                | thrown c v ↦ thrown c v
                | undefined v ↦ undefined v
              ]))
      stops w (done a v) h = h
      stops w (returned c v) h = h
      stops w (thrown c v) h = h
      stops w (undefined v) h = h

  -- The branches of a test.
  pub Keeps-if :
      {A : Type 0} (b : Bool) {m n : M A} → Keeps R m → Keeps R n → Keeps R (if b then m else n)
  Keeps-if true km kn = km
  Keeps-if false km kn = kn

  pub Keeps-elim :
      {A : Type 0} (b : Bool) {m n : M A}
      → Keeps R m
      → Keeps R n
      → Keeps R (elim b as (λ _. M A) [ true ↦ m | false ↦ n ])
  Keeps-elim true km kn = km
  Keeps-elim false km kn = kn

  pub Keeps-undefined : {A : Type 0} → Keeps R {A = A} (λ w. undefined w)
  Keeps-undefined = record { at = λ w. pre.same w }

  pub Keeps-option :
      {A B : Type 0} (o : Option A) {m : M B} {f : A → M B}
      → Keeps R m
      → ((a : A) → Keeps R (f a))
      → Keeps R (elim o as (λ _. M B) [ none ↦ m | some a ↦ f a ])
  Keeps-option none km kf = km
  Keeps-option (some a) km kf = kf a

pub ruleset keeps_rules = (
  Keeps-bind, Keeps-pure, Keeps-leave, Keeps-throw, Keeps-world, Keeps-require, Keeps-to_string,
  Keeps-call, Keeps-if, Keeps-elim, Keeps-require_some, Keeps-undefined, Keeps-option,
)
