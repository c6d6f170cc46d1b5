-- ===== src/Steps/Outcomes/Yielding.antt =====
-- What the values of a computation satisfy, whatever the world.
use secure_cloud_storage.Common.{ℕ, ◌≡◌, refl, Option, none, some, Bool, true, false, if◌then◌else◌}
use secure_cloud_storage.Memory.{Bytes, c_string}
use secure_cloud_storage.World.{
  World, M, Outcome, done, returned, thrown, undefined, and_then, pure, leave, require, to_string,
  ◌>>=◌,
}
use secure_cloud_storage.Steps.Outcomes.{Quiet}
use secure_cloud_storage.Steps.Outcomes.Judging.{
  Condition, Comes, Ends, IsJudged, calm_end, Ends-assoc,
}

abbrev pub Knows : {A : Type 0} → (A → Type 0) → Outcome A → Type 0
Knows V (done a v) = V a
Knows V (returned c v) = Unit
Knows V (thrown c v) = Unit
Knows V (undefined v) = Unit

pub record Yields {A : Type 0} (V : A → Type 0) (m : M A) : Type 0 where
  pub at : (w : World) → Knows V (m w)

knows_any : {A : Type 0} (o : Outcome A) → Knows (λ a. Unit) o
knows_any (done a v) = tt
knows_any (returned c v) = tt
knows_any (thrown c v) = tt
knows_any (undefined v) = tt

pub Yields-any : {A : Type 0} (m : M A) → Yields (λ a. Unit) m
Yields-any m = record { at = λ w. knows_any (m w) }

pub Yields-pure : {A : Type 0} (V : A → Type 0) (a : A) → V a → Yields V (pure a)
Yields-pure V a h = record { at = λ w. h }

pub Yields-require :
    {X : Type 0} (b : Bool) (c : ℕ) → (b ≡ true → X) → Yields (λ _. X) (require b c)
unfolding require
Yields-require true c h = record { at = λ w. h refl }
Yields-require false c h = record { at = λ w. tt }

pub Yields-if :
    {A : Type 0} {V : A → Type 0} (b : Bool) {m n : M A}
    → Yields V m
    → Yields V n
    → Yields V (if b then m else n)
Yields-if true ym yn = ym
Yields-if false ym yn = yn

pub Yields-undefined : {A : Type 0} (V : A → Type 0) → Yields V (λ w. undefined w)
Yields-undefined V = record { at = λ w. tt }

pub Yields-leave : {A : Type 0} (V : A → Type 0) (code : ℕ) → Yields V (leave code)
Yields-leave V code = record { at = λ w. tt }

pub to_string-Yields : (field : Bytes) → Yields (λ s. c_string field ≡ some s) (to_string field)
unfolding to_string
to_string-Yields field = record { at = λ w. by_text w (c_string field) refl }
  where
    by_text :
        (w : World) (o : Option Bytes)
        → c_string field ≡ o
        → Knows
            (λ s. c_string field ≡ some s)
            (elim o as (λ _. Outcome Bytes) [ none ↦ undefined w | some s ↦ done s w ])
    by_text w none e = tt
    by_text w (some s) e = e

knows_then :
    {A B : Type 0} {V : A → Type 0} {U : B → Type 0} (o : Outcome A) (f : A → M B)
    → Knows V o
    → ((a : A) → V a → Yields U (f a))
    → Knows U (and_then o f)
knows_then (done a v) f h k = (k a h).at v
knows_then (returned c v) f h k = tt
knows_then (thrown c v) f h k = tt
knows_then (undefined v) f h k = tt

pub Yields-bind :
    {A B : Type 0} (V : A → Type 0) {U : B → Type 0} {m : M A} {f : A → M B}
    → Yields V m
    → ((a : A) → V a → Yields U (f a))
    → Yields U (m >>= f)
unfolding ◌>>=◌
Yields-bind V {m = m} {f = f} ym yf = record { at = λ w. knows_then (m w) f (ym.at w) yf }

module _ (Good : World → Type 0) where
  comes_then :
      {A B : Type 0} {V : A → Type 0} {F H : Condition} (o : Outcome A) (f : A → M B)
      → Comes (IsJudged Good) F o
      → Knows V o
      → ((a : A) → V a → Ends (IsJudged Good) F H (f a))
      → Comes (IsJudged Good) H (and_then o f)
  comes_then (done a v) f h k rest = (rest a k).at v h
  comes_then (returned c v) f h k rest = h
  comes_then (thrown c v) f h k rest = tt
  comes_then (undefined v) f h k rest = tt

  -- A quiet step whose values satisfy something that the rest may use.
  pub Ends-knowing :
      {A B : Type 0} (V : A → Type 0) {F H : Condition} {m : M A} {f : A → M B}
      → Quiet m
      → Yields V m
      → ((a : A) → V a → Ends (IsJudged Good) F H (f a))
      → Ends (IsJudged Good) F H (m >>= f)
  unfolding ◌>>=◌
  Ends-knowing V {F = F} {m = m} {f = f} quiet yields rest = record {
    at = λ w h. comes_then (m w) f (calm_end Good F w (m w) (quiet.at w) h) (yields.at w) rest;
  }

  -- Such a step inside the first part.
  pub Ends-inside :
      {A B C : Type 0} (V : A → Type 0) {F H : Condition} (m : M A) (f : A → M B) (g : B → M C)
      → Quiet m
      → Yields V m
      → ((a : A) → V a → Ends (IsJudged Good) F H (f a >>= g))
      → Ends (IsJudged Good) F H ((m >>= f) >>= g)
  Ends-inside V m f g quiet yields rest = Ends-assoc Good m f g (Ends-knowing V quiet yields rest)
