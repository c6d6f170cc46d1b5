-- ===== src/Steps/Outcomes/Judging.antt =====
-- `Ends R F G m`: from a user, a counter and a key with `F`, the computation goes on with `G` or returns a
-- code and a world with `R`.
use secure_cloud_storage.Common.{ℕ, ◌+◌, ◌<◌, ◌≡◌, ◌≢◌, ◌⊎◌, inl, refl, arith, Option, none, some}
use secure_cloud_storage.Config.{max_counter_value}
use secure_cloud_storage.Memory.{Bytes}
use secure_cloud_storage.World.{
  Platform, World, M, Outcome, done, returned, thrown, undefined, and_then, pure, world, modify,
  require_some, ◌>>=◌,
}
use secure_cloud_storage.Steps.{increment_counter}
use secure_cloud_storage.Steps.Counter.{increment_counter-done}
use secure_cloud_storage.Steps.Outcomes.{accepted, Quiet, Calm}

-- A condition on the user's name, the counter and the session key.
abbrev pub Condition : Type 1
Condition = Bytes → ℕ → Bytes → Type 0

-- No computation goes on there.
abbrev pub Never : Condition
Never name counter key = ⊥

abbrev pub Comes : {A : Type 0} → (ℕ → World → Type 0) → Condition → Outcome A → Type 0
Comes R G (done a v) = G v.username v.counter v.session_key
Comes R G (returned c v) = R c v
Comes R G (thrown c v) = Unit
Comes R G (undefined v) = Unit

pub record Ends {A : Type 0} (R : ℕ → World → Type 0) (F G : Condition) (m : M A) : Type 0 where
  pub at : (w : World) → F w.username w.counter w.session_key → Comes R G (m w)

-- A world is judged by its code: other codes than the one for success need nothing.
abbrev pub IsJudged : (World → Type 0) → ℕ → World → Type 0
IsJudged Good c v = (c ≢ accepted) ⊎ Good v

module _ (Good : World → Type 0) where
  Ends-and_then :
      {A B : Type 0} {G H : Condition} (o : Outcome A) (f : A → M B)
      → Comes (IsJudged Good) G o
      → ((a : A) → Ends (IsJudged Good) G H (f a))
      → Comes (IsJudged Good) H (and_then o f)
  Ends-and_then (done a v) f h k = (k a).at v h
  Ends-and_then (returned c v) f h k = h
  Ends-and_then (thrown c v) f h k = tt
  Ends-and_then (undefined v) f h k = tt

  pub Ends-bind :
      {A B : Type 0} {F G H : Condition} {m : M A} {f : A → M B}
      → Ends (IsJudged Good) F G m
      → ((a : A) → Ends (IsJudged Good) G H (f a))
      → Ends (IsJudged Good) F H (m >>= f)
  unfolding ◌>>=◌
  Ends-bind {m = m} {f = f} em ef = record { at = λ w h. Ends-and_then (m w) f (em.at w h) ef }

  pub calm_end :
      {A : Type 0} (F : Condition) (w : World) (o : Outcome A)
      → Calm w o
      → F w.username w.counter w.session_key
      → Comes (IsJudged Good) F o
  calm_end F w (done a v) (name, count, key) h = rw (name, count, key) h
  calm_end F w (returned c v) other h = inl other
  calm_end F w (thrown c v) other h = tt
  calm_end F w (undefined v) other h = tt

  -- A quiet step keeps every condition.
  pub Ends-Quiet : {A : Type 0} (F : Condition) {m : M A} → Quiet m → Ends (IsJudged Good) F F m
  Ends-Quiet F {m} quiet = record { at = λ w h. calm_end F w (m w) (quiet.at w) h }

  -- The counter is set, and what holds of the name and the key stays.
  pub Ends-counter :
      (k : ℕ) (F G : Condition)
      → ((name : Bytes) (n : ℕ) (key : Bytes) → F name n key → G name k key)
      → Ends (IsJudged Good) F G (modify (λ w. record w { counter = k }))
  unfolding modify
  Ends-counter k F G h = record { at = λ w i. h w.username w.counter w.session_key i }

  pub Ends-username :
      (n : Bytes)
      → Ends
          (IsJudged Good)
          (λ name counter key. Unit)
          (λ name counter key. name ≡ n)
          (modify (λ w. record w { username = n }))
  unfolding modify
  Ends-username n = record { at = λ w i. refl }

  -- The counter goes up from a value that is not used up.
  pub Ends-increment_counter :
      (p : Platform) (again : M ℕ) (k : ℕ) (F G : Condition)
      → k < max_counter_value
      → ((name : Bytes) (n : ℕ) (key : Bytes) → F name n key → n ≡ k)
      → ((name : Bytes) (n : ℕ) (key : Bytes) → F name n key → G name (n + 1) key)
      → Ends (IsJudged Good) F G (increment_counter p again)
  Ends-increment_counter p again k F G low count next = record {
    at = λ w h.
        let here = count w.username w.counter w.session_key h in
        rw (increment_counter-done p again w (omega arith))
          (next w.username w.counter w.session_key h);
  }

  -- The rest may use what holds of the world that is looked at.
  pub Ends-world :
      {B : Type 0} {F H : Condition} {f : World → M B}
      → ((w : World) → F w.username w.counter w.session_key → Ends (IsJudged Good) F H (f w))
      → Ends (IsJudged Good) F H (world >>= f)
  unfolding ◌>>=◌
  Ends-world rest = record { at = λ w h. (rest w h).at w h }

  pub Ends-pure :
      {A B : Type 0} {F H : Condition} (a : A) (f : A → M B)
      → Ends (IsJudged Good) F H (f a)
      → Ends (IsJudged Good) F H (pure a >>= f)
  unfolding ◌>>=◌
  Ends-pure a f whole = record { at = λ w h. whole.at w h }

  -- A computation in two parts, the first of them in two parts itself.
  pub Ends-assoc :
      {A B C : Type 0} {F H : Condition} (m : M A) (f : A → M B) (g : B → M C)
      → Ends (IsJudged Good) F H (m >>= λ a. f a >>= g)
      → Ends (IsJudged Good) F H ((m >>= f) >>= g)
  unfolding ◌>>=◌
  Ends-assoc {H = H} m f g whole = record { at = λ w h. same H (m w) f g (whole.at w h) }
    where
      same :
          {A B C : Type 0} (H : Condition) (o : Outcome A) (f : A → M B) (g : B → M C)
          → Comes (IsJudged Good) H (and_then o (λ a w. and_then (f a w) g))
          → Comes (IsJudged Good) H (and_then (and_then o f) g)
      same H (done a v) f g h = h
      same H (returned c v) f g h = h
      same H (thrown c v) f g h = h
      same H (undefined v) f g h = h

  -- The first step from a world: the rest may use what it came to.
  pub Comes-first :
      {A B : Type 0} {H : Condition} (F : Condition) (m : M A) (f : A → M B) (w : World)
      → Quiet m
      → F w.username w.counter w.session_key
      → ((a : A) (v : World) → m w ≡ done a v → Ends (IsJudged Good) F H (f a))
      → Comes (IsJudged Good) H ((m >>= f) w)
  unfolding ◌>>=◌
  Comes-first {A = A} {H = H} F m f w quiet h rest =
      by_outcome (m w) refl (calm_end F w (m w) (quiet.at w) h)
    where
      by_outcome :
          (o : Outcome A)
          → m w ≡ o
          → Comes (IsJudged Good) F o
          → Comes (IsJudged Good) H (and_then o f)
      by_outcome (done a v) e i = (rest a v e).at v i
      by_outcome (returned c v) e i = i
      by_outcome (thrown c v) e i = tt
      by_outcome (undefined v) e i = tt

  -- A value that must be there: the rest may use that it is.
  pub Ends-require_some :
      {A B : Type 0} {F H : Condition} (o : Option A) (code : ℕ) {f : A → M B}
      → code ≢ accepted
      → ((a : A) → o ≡ some a → Ends (IsJudged Good) F H (f a))
      → Ends (IsJudged Good) F H (require_some o code >>= f)
  unfolding require_some ◌>>=◌
  Ends-require_some none code other rest = record { at = λ w h. inl other }
  Ends-require_some (some a) code other rest = record { at = λ w h. (rest a refl).at w h }
