-- ===== src/Client/Cooldown.antt =====
-- packages/sdk/src/interlatent/inference/client/cooldown.py: the counter that gates the next request.
-- A latency is a number of steps, not negative.
use interlatent.Base.{
  ℕ, zero, suc, ◌+◌, ◌-◌, ◌≤◌, max, Bool, true, ltb, ◌==◌, if◌then◌else◌, ◌≡◌, ◌↔◌, arith,
}

pub record Cooldown : Type 0 where
  pub remaining : ℕ
  pub epsilon : ℕ

unfoldable pub new_cooldown : ℕ → Cooldown
new_cooldown epsilon = record { remaining = 0; epsilon = max 1 epsilon }

unfoldable pub arm : Cooldown → ℕ → Cooldown
arm c latency_steps = record c { remaining = max 1 (latency_steps + c.epsilon) }

unfoldable pub tick : Cooldown → Cooldown
tick c = record c { remaining = if ltb 0 c.remaining then c.remaining - 1 else c.remaining }

unfoldable pub ready : Cooldown → Bool
ready c = c.remaining == 0

unfoldable pub ticks : ℕ → Cooldown → Cooldown
unfolding tick
ticks zero c = c
ticks (suc n) c = ticks n (tick c)

remaining-ticks : (n : ℕ) (c : Cooldown) → (ticks n c).remaining ≡ c.remaining - n
unfolding ticks tick
remaining-ticks zero c = omega arith
remaining-ticks (suc n) c = ground (arith, remaining-ticks n (tick c))

-- Once a request is fired, the next one may be fired after exactly as many control steps as the
-- estimated latency and the margin come to, and from then on.
pub ready-arm :
    (epsilon latency_steps n : ℕ)
    → (ready (ticks n (arm (new_cooldown epsilon) latency_steps)) ≡ true)
      ↔ (latency_steps + max 1 epsilon ≤ n)
unfolding ready arm new_cooldown
ready-arm epsilon latency_steps n =
    let left = remaining-ticks n (arm (new_cooldown epsilon) latency_steps) in
    ((λ h. ground (arith, h, left)), (λ h. ground (arith, h, left)))
