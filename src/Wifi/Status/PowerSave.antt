-- ===== src/Wifi/Status/PowerSave.antt =====
-- The power-saving word: what the driver reads from it for the two reports.
use zephyr_cyw43_driver.Prelude.{
  ℕ, ◌+◌, ◌*◌, ◌/◌, ◌%◌, ◌^◌, ◌<◌, ◌≡◌, ◌≢◌, arith, bit_and, true, some, none, refl, Bool-cases,
  inl, inr, if◌then◌else◌, List, ◌∷◌,
}
use zephyr_cyw43_driver.Prelude.Bits.{and_low, and_shifted}
use zephyr_cyw43_driver.Prelude.Int.{is_zero}
use zephyr_cyw43_driver.Prelude.Fault.{◌>>=◌}
use zephyr_cyw43_driver.Wifi.Platform.{Platform, Call}
use zephyr_cyw43_driver.Wifi.Device.{Driver, Device}
use zephyr_cyw43_driver.Wifi.Status.{
  listen_interval, beacon_field, dtim_field, saving_fields, refresh_pm, pm_config, pm_status,
}

-- The word that the library packs, from its lowest field upwards: mode, sleep in units of 10 ms,
-- beacon period, DTIM period, association.
abbrev pub packed : ℕ → ℕ → ℕ → ℕ → ℕ → ℕ
packed mode sleep beacon dtim assoc =
    mode + sleep * 2 ^ 4 + beacon * 2 ^ 12 + dtim * 2 ^ 16 + assoc * 2 ^ 20

mode_bits : (pm : ℕ) → bit_and pm 0xf ≡ pm % 16
mode_bits = and_low 4

sleep_bits : (pm : ℕ) → bit_and pm 0xff0 ≡ pm / 16 % 256 * 16
sleep_bits pm = omega (arith, and_shifted 4 pm 0xff, and_low 8 (pm / 2 ^ 4))

beacon_bits : (pm : ℕ) → bit_and pm 0xf000 ≡ pm / 2 ^ 12 % 16 * 2 ^ 12
beacon_bits pm = omega (arith, and_shifted 12 pm 0xf, and_low 4 (pm / 2 ^ 12))

dtim_bits : (pm : ℕ) → bit_and pm 0xf_0000 ≡ pm / 2 ^ 16 % 16 * 2 ^ 16
dtim_bits pm = omega (arith, and_shifted 16 pm 0xf, and_low 4 (pm / 2 ^ 16))

module _ (p : Platform) (mode sleep beacon dtim assoc : ℕ) (mode_fits : mode < 16)
    (sleep_fits : sleep < 256) (beacon_fits : beacon < 16) (dtim_fits : dtim < 16)
    (saving : mode ≢ p.no_powersave_mode) where
  abbrev word : ℕ
  word = packed mode sleep beacon dtim assoc

  -- `zephyr_cyw43_iface_status` reads the beacon and the DTIM period back from a word that was
  -- packed with a power-saving mode and fields that fit.
  saving_fields-packed :
      (saving_fields p true word beacon_field ≡ some beacon)
      × (saving_fields p true word dtim_field ≡ some dtim)
  unfolding saving_fields
  saving_fields-packed = ground (arith, mode_bits word, beacon_bits word, dtim_bits word)

  pm_config-packed : pm_config p word ≡ record {
    enabled = true;
    wakeup_mode = some listen_interval;
    timeout_ms = some (sleep * 10);
  }
  unfolding pm_config
  pm_config-packed = ground (arith, mode_bits word, sleep_bits word)

  -- Where the library stores a power-saving word, packed from a mode other than no power saving
  -- and from fields that fit, and reports success, `zephyr_cyw43_pm_status` reports that power
  -- saving is on and the sleep time in milliseconds; the wake-up mode it reports is the listen
  -- interval, whatever the DTIM period. Where the library reports an error, the configuration is
  -- left alone. Either way the device keeps the word, and the lock is taken only on success.
  pub pm_status-packed :
      (s : Driver)
      → p.word (Call.wifi_get_pm ∷ s.log) ≡ word
      → let l : List Call = Call.wifi_get_pm ∷ s.log in
        let d : Device = s.dev in
        pm_status p s ≡ (
          if is_zero (p.ret l)
          then some (
            some (record {
              enabled = true;
              wakeup_mode = some listen_interval;
              timeout_ms = some (sleep * 10);
            }),
            record { dev = record d { pm_in = word }; log = Call.unlock ∷ Call.lock ∷ l },
          )
          else some (none, record { dev = record d { pm_in = word }; log = l }))
  unfolding pm_status refresh_pm
  pm_status-packed s stored = elim (Bool-cases (is_zero (p.ret (Call.wifi_get_pm ∷ s.log)))) [
    | inl ok ↦ rw (ok, ◌>>=◌, stored, pm_config-packed) refl
    | inr refused ↦ rw (refused, ◌>>=◌, stored) refl
  ]
