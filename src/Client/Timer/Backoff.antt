-- ===== src/Client/Timer/Backoff.antt =====
-- `ReconnectBackoff` of crates/obby-client/src/timer.rs.
use native.Mathlib.Nat.{pow-le-pow_right}
use obby_client.Base.{
  ℕ, zero, suc, ◌+◌, ◌-◌, ◌*◌, ◌^◌, ◌≤◌, ◌<◌, ◌≡◌, ap, ◌∙◌, Option, none, some, min, leb, ltb,
  if◌then◌else◌, arith, unwrap_or, Bool-cases, inl, inr, u64_limit,
}

pub record ReconnectBackoff : Type 0 where
  pub base_ms : ℕ
  pub cap_ms : ℕ
  pub max_attempts : ℕ
  pub attempts : ℕ

abbrev pub u64_max : ℕ
u64_max = u64_limit - 1

unfoldable pub new : ℕ → ℕ → ℕ → ReconnectBackoff
new base_ms cap_ms max_attempts = record {
  base_ms = base_ms;
  cap_ms = cap_ms;
  max_attempts = max_attempts;
  attempts = 0;
}

-- `ReconnectBackoff::default`.
unfoldable pub default : ReconnectBackoff
unfolding new
default = new 2000 300000 100

-- `1u64.checked_shl(attempts)`.
unfoldable pub checked_shl : ℕ → Option ℕ
checked_shl attempts = if ltb attempts 64 then some (2 ^ attempts) else none

-- `u64::saturating_mul`.
unfoldable pub saturating_mul : ℕ → ℕ → ℕ
saturating_mul a b = min (a * b) u64_max

unfoldable pub next_delay_ms : ReconnectBackoff → Option ℕ × ReconnectBackoff
unfolding checked_shl saturating_mul
next_delay_ms b = if leb b.max_attempts b.attempts then (none, b) else (
  some (min (saturating_mul b.base_ms (unwrap_or (checked_shl b.attempts) u64_max)) b.cap_ms),
  record b { attempts = b.attempts + 1 },
)

unfoldable pub reset : ReconnectBackoff → ReconnectBackoff
reset b = record b { attempts = 0 }

large_delay :
    (base cap p : ℕ)
    → cap < u64_limit
    → u64_limit ≤ p
    → min (min (base * u64_max) u64_max) cap ≡ min (base * p) cap
large_delay zero cap p c h = omega arith
large_delay (suc base) cap p c h = omega arith

delay_eq :
    (base cap n : ℕ)
    → cap < u64_limit
    → min (saturating_mul base (unwrap_or (checked_shl n) u64_max)) cap ≡ min (base * 2 ^ n) cap
unfolding saturating_mul checked_shl
delay_eq base cap n c = elim (Bool-cases (ltb n 64)) [
  | inl small ↦ rw small (omega arith)
  | inr large ↦ rw large (
      large_delay base cap (2 ^ n) c
        (pow-le-pow_right {n = 2} (omega arith) {i = 64} {j = n} (ground arith)))
]

-- The backoff after so many calls.
unfoldable pub after : ℕ → ReconnectBackoff → ReconnectBackoff
after zero b = b
after (suc n) b = after n (next_delay_ms b).1

next_delay_ms-some :
    (b : ReconnectBackoff)
    → b.attempts < b.max_attempts
    → b.cap_ms < u64_limit
    → next_delay_ms b
      ≡ (some (min (b.base_ms * 2 ^ b.attempts) b.cap_ms), record b { attempts = b.attempts + 1 })
unfolding next_delay_ms
next_delay_ms-some b h c = ground (arith, delay_eq b.base_ms b.cap_ms b.attempts c)

next_delay_ms-none :
    (b : ReconnectBackoff) → b.max_attempts ≤ b.attempts → next_delay_ms b ≡ (none, b)
unfolding next_delay_ms
next_delay_ms-none b h = ground arith

min_full : (a m n : ℕ) → m ≤ a → min (a + n) m ≡ min (a + suc n) m
min_full a m n h = omega arith

after-attempts :
    (n : ℕ) (b : ReconnectBackoff)
    → b.cap_ms < u64_limit
    → b.attempts ≤ b.max_attempts
    → after n b ≡ record b { attempts = min (b.attempts + n) b.max_attempts }
unfolding after
after-attempts zero b c h =
    let e : min (b.attempts + 0) b.max_attempts ≡ b.attempts = omega arith in simp e
after-attempts (suc n) b c h = elim (Bool-cases (ltb b.attempts b.max_attempts)) [
  | inl more ↦
      ap (λ (p : Option ℕ × ReconnectBackoff). after n p.1) (next_delay_ms-some b (ground arith) c)
      ∙ after-attempts n (record b { attempts = b.attempts + 1 }) c (ground arith)
      ∙ ap (λ k. record b { attempts = k }) (omega arith)
  | inr full ↦
      ap (λ (p : Option ℕ × ReconnectBackoff). after n p.1) (next_delay_ms-none b (ground arith))
      ∙ after-attempts n b c h
      ∙ ap (λ k. record b { attempts = k }) (min_full b.attempts b.max_attempts n (ground arith))
]

-- The delay of the attempt number `n`, counted from 0, is exactly the base doubled `n` times and
-- cut at the cap: the shift and the product that saturate never show. After the last attempt
-- there is no delay, however often one asks. The cap is a `u64`.
pub next_delay_ms-exact :
    (base cap most n : ℕ)
    → cap < u64_limit
    → (next_delay_ms (after n (new base cap most))).0
      ≡ (if ltb n most then some (min (base * 2 ^ n) cap) else none)
unfolding new
next_delay_ms-exact base cap most n c =
    let b = new base cap most in
    rw (after-attempts n b c (omega arith)) (elim (Bool-cases (ltb n most)) [
      | inl more ↦
          let e : min (0 + n) most ≡ n = ground arith in
          rw (e, more)
            (ap (λ (p : Option ℕ × ReconnectBackoff). p.0)
              (next_delay_ms-some (record b { attempts = n }) (ground arith) c))
      | inr full ↦
          let e : min (0 + n) most ≡ most = ground arith in
          rw (e, full)
            (ap (λ (p : Option ℕ × ReconnectBackoff). p.0)
              (next_delay_ms-none (record b { attempts = most }) (omega arith)))
    ])
