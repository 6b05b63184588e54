-- ===== src/Uart/Start.antt =====
-- `uartstart` returns, having sent the oldest bytes for as long as the device took them.
use csklub_os.Base.{
  ℕ, zero, suc, ◌+◌, ◌<◌, ◌≡◌, refl, sym, ◌∙◌, ap, subst, arith, true, false, [], ◌∷◌, ◌++◌, length,
  some, ◌⊎◌, inl, inr, Bool-cases,
}
use csklub_os.Uart.{Uart, Started, also_sent, uartstart, front_byte, next_byte, is_idle, is_empty}
use csklub_os.Uart.Queue.{
  held, contents, IsValid, next_byte-IsValid, held-next_byte, contents-next_byte, contents-empty,
}

-- From the k-th read of the status on: the device was idle for each byte that was sent, and the
-- buffer is empty or the device is busy.
pub record Sent (lsr : ℕ → ℕ) (k : ℕ) (u : Uart) (s : Started) : Type 0 where
  pub bytes : contents u ≡ s.sent ++ contents s.uart
  pub valid : IsValid s.uart
  pub idle : (i : ℕ) → i < length s.sent → is_idle (lsr (k + i)) ≡ true
  pub stop : (contents s.uart ≡ []) ⊎ (is_idle (lsr (k + length s.sent)) ≡ false)
  pub wakes : 0 < length s.sent → s.woken ≡ true

abbrev nothing_sent : Uart → Started
nothing_sent u = record { uart = u; sent = []; woken = false }

nothing_sent-Sent :
    (lsr : ℕ → ℕ) (k : ℕ) (u : Uart)
    → IsValid u
    → (contents u ≡ []) ⊎ (is_idle (lsr k) ≡ false)
    → Sent lsr k u (nothing_sent u)
nothing_sent-Sent lsr k u v why = record {
  bytes = refl;
  valid = v;
  idle = λ i h. absurd (omega (arith, h));
  stop =
      let e : k ≡ k + 0 = omega arith in
      subst (λ j. (contents u ≡ []) ⊎ (is_idle (lsr j) ≡ false)) e why;
  wakes = λ h. absurd (omega (arith, h));
}

also_sent-Sent :
    (lsr : ℕ → ℕ) (k : ℕ) (u : Uart) (s : Started)
    → IsValid u
    → is_empty u ≡ false
    → is_idle (lsr k) ≡ true
    → Sent lsr (k + 1) (next_byte u) s
    → Sent lsr k u (also_sent (front_byte u) s)
also_sent-Sent lsr k u s v some_held ready r = record {
  bytes = contents-next_byte u v some_held ∙ ap (◌∷◌ (front_byte u)) r.bytes;
  valid = r.valid;
  idle = at_each;
  stop = elim r.stop [
    | inl gone ↦ inl gone
    | inr busy ↦
        let e : k + 1 + length s.sent ≡ k + length (front_byte u ∷ s.sent) = omega arith in
        inr (ap (λ j. is_idle (lsr j)) (sym e) ∙ busy)
  ];
  wakes = λ h. refl;
}
  where
    at_each : (i : ℕ) → i < length (front_byte u ∷ s.sent) → is_idle (lsr (k + i)) ≡ true
    at_each zero h = let e : k + zero ≡ k = omega arith in ap (λ j. is_idle (lsr j)) e ∙ ready
    at_each (suc i) h =
        let e : k + suc i ≡ k + 1 + i = omega arith in
        ap (λ j. is_idle (lsr j)) e ∙ r.idle i (omega (arith, h))

-- With more fuel than bytes are held, `uartstart` returns. It has sent the oldest bytes in their order, each
-- when the device was idle, and stopped since the buffer was empty or the device busy; if it sent any, those
-- who wait for space are woken.
pub uartstart-Sent :
    (fuel : ℕ) (lsr : ℕ → ℕ) (k : ℕ) (u : Uart)
    → IsValid u
    → held u < fuel
    → (s : Started) × (uartstart fuel lsr k u ≡ some s) × Sent lsr k u s
unfolding uartstart
uartstart-Sent zero lsr k u v enough = absurd (omega (arith, enough))
uartstart-Sent (suc fuel) lsr k u v enough = elim (Bool-cases (is_empty u)) [
  | inl gone ↦
      (nothing_sent u, rw gone refl, nothing_sent-Sent lsr k u v (inl (contents-empty u v gone)))
  | inr some_held ↦ elim (Bool-cases (is_idle (lsr k))) [
    | inl ready ↦
        let (s, e, r) =
          uartstart-Sent fuel lsr (k + 1) (next_byte u) (next_byte-IsValid u v some_held)
            (omega (arith, held-next_byte u v some_held, enough)) in
        (
          also_sent (front_byte u) s,
          rw (some_held, ready, e) refl,
          also_sent-Sent lsr k u s v some_held ready r,
        )
    | inr busy ↦ (nothing_sent u, rw (some_held, busy) refl, nothing_sent-Sent lsr k u v (inr busy))
  ]
]
