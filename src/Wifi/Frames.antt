-- ===== src/Wifi/Frames.antt =====
-- Ethernet frames: `zephyr_cyw43_send` and `cyw43_cb_process_ethernet`, with their statistics,
-- and the statistics that `zephyr_cyw43_wifi_stats` reads back.
pub mod Accounting
use zephyr_cyw43_driver.Prelude.{ℕ, ◌+◌, ◌/◌, ◌%◌, ◌^◌, true, false, ◌==◌, if◌then◌else◌}
use zephyr_cyw43_driver.Prelude.{List, take, drop, length, ◌++◌, ltb, Option, none, some}
use zephyr_cyw43_driver.Prelude.Int.{ℤ, neg, is_neg, is_zero}
use zephyr_cyw43_driver.Prelude.Fault.{M, ◌>>=◌, ◌>>◌, pure, get, when}
use zephyr_cyw43_driver.Wifi.Platform.{Platform, Config, Call}
use zephyr_cyw43_driver.Wifi.Device.{
  Driver, Device, Stats, perform, update_dev, invoke, read_itf_state, checked,
}

-- The counters are unsigned 32-bit words.
abbrev pub bump : ℕ → ℕ → ℕ
bump counter n = (counter + n) % 2 ^ 32

abbrev pub count_sent : ℕ → Device → Device
count_sent len d =
    let s : Stats = d.stats in
    record d { stats = record s { bytes_sent = bump s.bytes_sent len; pkts_tx = bump s.pkts_tx 1 } }

abbrev pub count_received : ℕ → Device → Device
count_received len d =
    let s : Stats = d.stats in
    record d {
      stats = record s { bytes_received = bump s.bytes_received len; pkts_rx = bump s.pkts_rx 1 };
    }

abbrev pub count_tx_error : Device → Device
count_tx_error d =
    let s : Stats = d.stats in record d { stats = record s { errors_tx = bump s.errors_tx 1 } }

abbrev pub count_rx_error : Device → Device
count_rx_error d =
    let s : Stats = d.stats in record d { stats = record s { errors_rx = bump s.errors_rx 1 } }

module _ (p : Platform) (c : Config) where
  -- The frame buffer once `payload` has been read into it; none if that is too long.
  abbrev pub fill : List ℕ → List ℕ → Option (List ℕ)
  fill buf payload =
      if ltb (length buf) (length payload)
      then none
      else some (payload ++ drop (length payload) buf)

  -- `pkt_len` is the packet's length.
  unfoldable pub send : ℕ → M Driver ℤ
  send pkt_len = do
    got ← invoke p (Call.pkt_read pkt_len)
    s ← get
    elim (is_neg got) [
      | true ↦ (do when c.net_statistics_wifi (update_dev count_tx_error); pure (neg p.eio))
      | false ↦ (do
        frame ← checked (fill s.dev.frame_buf (p.bytes s.log))
        update_dev (λ d. record d { frame_buf = frame })
        state ← read_itf_state p
        rv ← invoke p (
            Call.send_ethernet (if state / 2 ^ p.itf_ap == 0 then p.itf_sta else p.itf_ap) pkt_len
              (take pkt_len frame))
        when c.net_statistics_wifi (update_dev (count_sent pkt_len))
        pure rv)
    ]

  -- The exit of `cyw43_cb_process_ethernet` on a failure that leaves the packet to the driver.
  unfoldable pub drop_packet : M Driver (Unit {0})
  drop_packet = do when c.net_statistics_wifi (update_dev count_rx_error); perform Call.pkt_unref

  -- `net_pkt_rx_alloc_with_buffer` returns 0 for a null pointer.
  unfoldable pub process_ethernet : List ℕ → M Driver (Unit {0})
  unfolding drop_packet
  process_ethernet buf = do
    s ← get
    elim s.dev.iface [
      | false ↦ pure tt
      | true ↦ (do
        pkt ← invoke p (Call.pkt_rx_alloc (length buf))
        elim (is_zero pkt) [
          | true ↦ pure tt
          | false ↦ (do
            written ← invoke p (Call.pkt_write buf)
            elim (is_neg written) [
              | true ↦ drop_packet
              | false ↦ (do
                received ← invoke p Call.recv_data
                elim (is_neg received) [
                  | true ↦ drop_packet
                  | false ↦ when c.net_statistics_wifi (update_dev (count_received (length buf)))
                ])
            ])
        ])
    ]

-- `zephyr_cyw43_wifi_stats`: the counters that the caller then has.
unfoldable pub wifi_stats : Device → Stats
wifi_stats d =
    let s : Stats = d.stats in
    record {
      bytes_received = s.bytes_received;
      bytes_sent = s.bytes_sent;
      pkts_rx = s.pkts_rx;
      pkts_tx = s.pkts_tx;
      errors_rx = s.errors_rx;
      errors_tx = s.errors_tx;
      broadcast_rx = s.broadcast_rx;
      broadcast_tx = s.broadcast_tx;
      multicast_rx = s.multicast_rx;
      multicast_tx = s.multicast_tx;
      beacons_rx = s.beacons_rx;
      beacons_miss = s.beacons_miss;
    }
