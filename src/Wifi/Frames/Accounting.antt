-- ===== src/Wifi/Frames/Accounting.antt =====
-- What becomes of a packet, and what the statistics count.
use zephyr_cyw43_driver.Prelude.{
  ℕ, suc, ◌/◌, ◌^◌, ◌≤◌, ◌≡◌, ◌⊎◌, arith, true, false, List, ◌∷◌, if◌then◌else◌, ◌==◌, length, drop,
  take-append,
}
use zephyr_cyw43_driver.Prelude.Int.{neg, is_neg, is_zero}
use zephyr_cyw43_driver.Prelude.Fault.{Returns}
use zephyr_cyw43_driver.Wifi.Platform.{
  Platform, Config, Call, pkt_read, pkt_rx_alloc, pkt_write, recv_data, send_ethernet,
}
use zephyr_cyw43_driver.Wifi.Device.{Driver, Device}
use zephyr_cyw43_driver.Wifi.Counts.{unrefs}
use zephyr_cyw43_driver.Wifi.Frames.{
  send, process_ethernet, count_sent, count_received, count_tx_error, count_rx_error,
}

-- A change of the device that is made only where statistics are configured.
abbrev pub counted : Config → (Device → Device) → Device → Device
counted c f d = if c.net_statistics_wifi then f d else d

module _ (p : Platform) (c : Config) where
  -- `cyw43_cb_process_ethernet` always returns. With no interface, or no packet to be had, it
  -- changes nothing and releases nothing; otherwise the packet is either released by the driver,
  -- once, and counted as an error, which happens where it could not be written or was not taken;
  -- or it was written and taken by the network stack, is not released, and its bytes are counted. The
  -- counters change only where the statistics are built in.
  pub process_ethernet_lem :
      (buf : List ℕ) (s : Driver)
      → let alloc : List Call = pkt_rx_alloc (length buf) ∷ s.log in
        let write : List Call = pkt_write buf ∷ alloc in
        let recv : List Call = recv_data ∷ write in
        Returns
          (λ _ s'.
            ((s'.dev ≡ s.dev)
              × (unrefs s'.log ≡ unrefs s.log)
              × ((s.dev.iface ≡ false) ⊎ (is_zero (p.ret alloc) ≡ true)))
            ⊎ ((s.dev.iface ≡ true)
                × (is_zero (p.ret alloc) ≡ false)
                × (s'.dev ≡ counted c count_rx_error s.dev)
                × (unrefs s'.log ≡ suc (unrefs s.log))
                × ((is_neg (p.ret write) ≡ true) ⊎ (is_neg (p.ret recv) ≡ true)))
            ⊎ ((s.dev.iface ≡ true)
                × (is_zero (p.ret alloc) ≡ false)
                × (s'.dev ≡ counted c (count_received (length buf)) s.dev)
                × (unrefs s'.log ≡ unrefs s.log)
                × (is_neg (p.ret write) ≡ false)
                × (is_neg (p.ret recv) ≡ false)))
          (process_ethernet p c buf s)
  unfolding process_ethernet
  process_ethernet_lem buf s = ground arith

  -- For a packet that fits the frame buffer, and a network stack that reads as many bytes as it is
  -- asked for, `zephyr_cyw43_send` always returns: -EIO where the packet could not be read, with
  -- nothing sent and an error counted; otherwise the library's code, after exactly the packet's
  -- bytes went out, to the access point if a bit from its own upwards is set in `itf_state`, else
  -- to the station, and they are counted. The
  -- counters change only where the statistics are built in.
  pub send_lem :
      (n : ℕ) (s : Driver)
      → let read : List Call = pkt_read n ∷ s.log in
        let itf : ℕ = if p.itf_state read / 2 ^ p.itf_ap == 0 then p.itf_sta else p.itf_ap in
        let sent : List Call = send_ethernet itf n (p.bytes read) ∷ read in
        length (p.bytes read) ≡ n
        → n ≤ length s.dev.frame_buf
        → Returns
            (λ rv s'.
              ((is_neg (p.ret read) ≡ true)
                × (rv ≡ neg p.eio)
                × (s'.log ≡ read)
                × (s'.dev ≡ counted c count_tx_error s.dev))
              ⊎ ((is_neg (p.ret read) ≡ false)
                  × (rv ≡ p.ret sent)
                  × (s'.log ≡ sent)
                  × (s'.dev.stats ≡ (counted c (count_sent n) s.dev).stats)))
            (send p c n s)
  unfolding send
  send_lem n s whole fits = ground (
    arith,
    take-append (p.bytes (pkt_read n ∷ s.log))
        (drop (length (p.bytes (pkt_read n ∷ s.log))) s.dev.frame_buf),
  )
