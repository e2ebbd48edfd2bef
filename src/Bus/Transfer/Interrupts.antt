-- ===== src/Bus/Transfer/Interrupts.antt =====
-- What a transfer sends, stores and returns, and when the radio's interrupt is enabled.
use zephyr_cyw43_driver.Prelude.{
  ℕ, ◌+◌, ◌<◌, ◌≤◌, ◌≡◌, ◌≢◌, ◌⊎◌, arith, Bool, true, false, List, [], ◌∷◌, ◌++◌, Option, none,
  some, take, drop, length,
}
use zephyr_cyw43_driver.Prelude.Int.{ℤ, negate}
use zephyr_cyw43_driver.Bus.Platform.{
  BusPlatform, BusCall, pinctrl_apply, interrupt_configure, host_wake, default_state, edge_falling,
  level_high, disabled, transceive,
}
use zephyr_cyw43_driver.Bus.Transfer.{Bus, irq_enable, exchange, spi_transfer}

-- The log behind `irq_enable(false)`, the transfer itself, and `irq_enable(true)`.
abbrev pub masked : List BusCall → List BusCall
masked l = pinctrl_apply default_state ∷ interrupt_configure disabled ∷ l

abbrev pub exchanged : Option (List ℕ) → ℕ → ℕ → List BusCall → List BusCall
exchanged tx n m l = transceive tx n m ∷ masked l

abbrev pub unmasked : List BusCall → List BusCall
unmasked l =
    interrupt_configure level_high ∷ interrupt_configure edge_falling ∷ pinctrl_apply host_wake ∷ l

-- Whether the interrupt is enabled, by the last configuration.
abbrev pub irq_on : List BusCall → Bool
irq_on [] = false
irq_on (interrupt_configure disabled ∷ l) = false
irq_on (interrupt_configure edge_falling ∷ l) = true
irq_on (interrupt_configure level_high ∷ l) = true
irq_on (_ ∷ l) = irq_on l

-- The interrupt was disabled at every transfer on the wire, which shares its pin.
abbrev pub IsQuiet : List BusCall → Type 0
IsQuiet [] = Unit
IsQuiet (transceive tx n m ∷ l) = (irq_on l ≡ false) × IsQuiet l
IsQuiet (_ ∷ l) = IsQuiet l

module _ (p : BusPlatform) (s : Bus) where
  -- A transfer that only sends: `n` bytes of the caller's buffer.
  pub spi_transfer-send :
      (tx : List ℕ) (n : ℕ)
      → n ≤ length tx
      → let l = exchanged (some (take n tx)) n 0 s.log in
        spi_transfer p (some tx) n none 0 s ≡ some ((p.ret l, none), record s { log = unmasked l })
  unfolding spi_transfer exchange irq_enable
  spi_transfer-send tx n h = ground arith

  -- A transfer that reads into a buffer whose first `n` bytes are the command to send: what comes
  -- back stands behind them.
  pub spi_transfer-receive :
      (rx : List ℕ) (n k m : ℕ)
      → let l = exchanged (some (take n rx)) n k s.log in
        0 < n
        → m ≡ n + k
        → m ≤ length rx
        → length (p.received l) ≡ k
        → spi_transfer p none n (some rx) m s
          ≡ some (
            (p.ret l, some (take n rx ++ p.received l ++ drop (n + length (p.received l)) rx)),
            record s { log = unmasked l },
          )
  unfolding spi_transfer exchange irq_enable
  spi_transfer-receive rx n k m pos sum fits whole = ground arith

  -- A transfer with at least one buffer, whenever it returns, leaves the interrupt enabled, and
  -- had it disabled on the wire. One with no buffer returns the library's code for an invalid
  -- argument, makes no call but those that disable the interrupt, so none of the wire, and leaves
  -- it disabled.
  pub spi_transfer-irq :
      (tx : Option (List ℕ)) (n : ℕ) (rx : Option (List ℕ)) (m : ℕ) {r : ℤ × Option (List ℕ)}
      {t : Bus}
      → spi_transfer p tx n rx m s ≡ some (r, t)
      → (((tx ≢ none) ⊎ (rx ≢ none)) × (irq_on t.log ≡ true) × (IsQuiet s.log → IsQuiet t.log))
        ⊎ ((tx ≡ none)
            × (rx ≡ none)
            × (t.log ≡ masked s.log)
            × (irq_on t.log ≡ false)
            × (IsQuiet s.log → IsQuiet t.log)
            × (r.0 ≡ p.fail_fast_check (negate p.einval)))
  unfolding spi_transfer exchange irq_enable
  spi_transfer-irq none n none m h = ground arith
  spi_transfer-irq none n (some rx) m h = ground arith
  spi_transfer-irq (some tx) n rx m h = ground arith
