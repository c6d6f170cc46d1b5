-- ===== src/Steps/Counter.antt =====
-- `Server::incrementCounter` in src/modules/Server.cpp.
use secure_cloud_storage.Common.{ℕ, ◌+◌, ◌%◌, ◌^◌, ◌<◌, ◌≡◌, ap, ◌∙◌, false, arith, ◌==◌}
use secure_cloud_storage.Config.{max_counter_value}
use secure_cloud_storage.World.{Platform, World, M, done, ◌>>=◌}
use secure_cloud_storage.Steps.{increment_counter, count_up}

-- A counter below the maximum goes up by one and nothing else changes.
pub increment_counter-done :
    (p : Platform) (authenticate : M ℕ) (w : World)
    → w.counter < max_counter_value
    → increment_counter p authenticate w ≡ done tt (record w { counter = w.counter + 1 })
unfolding increment_counter count_up ◌>>=◌
increment_counter-done p authenticate w h =
    let low : (w.counter == max_counter_value) ≡ false = ground arith in
    let up : (w.counter + 1) % 2 ^ 32 ≡ w.counter + 1 = omega arith in rw (low, up)

pub counted_to :
    (p : Platform) (authenticate : M ℕ) (w : World) (c : ℕ)
    → w.counter < max_counter_value
    → w.counter + 1 ≡ c
    → increment_counter p authenticate w ≡ done tt (record w { counter = c })
counted_to p authenticate w c low e =
    increment_counter-done p authenticate w low ∙ ap (λ n. done tt (record w { counter = n })) e
