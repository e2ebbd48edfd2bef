-- ===== src/Wifi/System/Counted.antt =====
-- The statistics of frames against the calls that were made, from power-on on.
use zephyr_cyw43_driver.Prelude.{
  ℕ, ◌+◌, ◌%◌, ◌^◌, ◌≡◌, inl, inr, arith, refl, sym, ap, ◌∙◌, true, List, some,
}
use mathlib.Core.Path.{subst}
use zephyr_cyw43_driver.Prelude.Fault.{pure, IfReturns, IfReturns-bind}
use zephyr_cyw43_driver.Wifi.Platform.{Platform, Config, Call}
use zephyr_cyw43_driver.Wifi.Device.{Driver, Stats}
use zephyr_cyw43_driver.Wifi.Counts.{sends, sent_bytes, reads, writes, unrefs}
use zephyr_cyw43_driver.Wifi.Frames.{send, drop_packet, process_ethernet, wifi_stats}
use zephyr_cyw43_driver.Wifi.Balance.{frames, Same, Traffic}
use zephyr_cyw43_driver.Wifi.Balance.Entries.{Entry, enter, kind_of}
use zephyr_cyw43_driver.Wifi.System.{System, Event, powered, boot, Runs}
use zephyr_cyw43_driver.Wifi.System.Reached.{enter-Kept, boot-Kept}

-- The statistics are the counts of the calls, as words of 32 bits: the frames that were handed to
-- the library and their bytes; the packets read, as those that were sent and those that failed; the
-- packets written, as those received and those that failed; and those released, which all failed.
pub record Exact (x : Stats) (l : List Call) : Type 0 where
  pub sent : x.pkts_tx ≡ sends l % 2 ^ 32
  pub bytes : x.bytes_sent ≡ sent_bytes l % 2 ^ 32
  pub read : (x.pkts_tx + x.errors_tx) % 2 ^ 32 ≡ reads l % 2 ^ 32
  pub written : (x.pkts_rx + x.errors_rx) % 2 ^ 32 ≡ writes l % 2 ^ 32
  pub dropped : x.errors_rx ≡ unrefs l % 2 ^ 32

Exact-Same : (s t : Driver) → Same s t → Exact s.dev.stats s.log → Exact t.dev.stats t.log
Exact-Same s t (stats, sent, bytes, read, written, dropped) x = rw stats (record {
  sent = x.sent ∙ ap (λ n. n % 2 ^ 32) (sym sent);
  bytes = x.bytes ∙ ap (λ n. n % 2 ^ 32) (sym bytes);
  read = x.read ∙ ap (λ n. n % 2 ^ 32) (sym read);
  written = x.written ∙ ap (λ n. n % 2 ^ 32) (sym written);
  dropped = x.dropped ∙ ap (λ n. n % 2 ^ 32) (sym dropped);
})

module _ (p : Platform) (c : Config) (on : c.net_statistics_wifi ≡ true) where
  send-Exact :
      (n : ℕ) (s : Driver)
      → Exact s.dev.stats s.log
      → IfReturns (λ _ t. Exact t.dev.stats t.log) (send p c n s)
  unfolding send
  send-Exact n s x = ground (arith, on, x.sent, x.bytes, x.read, x.written, x.dropped)

  process_ethernet-Exact :
      (buf : List ℕ) (s : Driver)
      → Exact s.dev.stats s.log
      → IfReturns (λ _ t. Exact t.dev.stats t.log) (process_ethernet p c buf s)
  unfolding process_ethernet drop_packet
  process_ethernet-Exact buf s x = ground (arith, on, x.sent, x.bytes, x.read, x.written, x.dropped)

  frames-Exact :
      (e : Entry) (s : Driver)
      → kind_of e ≡ frames
      → Exact s.dev.stats s.log
      → IfReturns (λ _ t. Exact t.dev.stats t.log) (enter p c e s)
  unfolding enter
  frames-Exact (Entry.at_send len) s h x =
      IfReturns-bind (λ _ t. Exact t.dev.stats t.log) (λ _ t. Exact t.dev.stats t.log)
        (send p c len) (λ _. pure tt) s (send-Exact len s x) (λ _ t y. y)
  frames-Exact (Entry.at_ethernet buf) s h x = process_ethernet-Exact buf s x
  frames-Exact e s h x = absurd (ground (arith, h))

  Exact-Traffic :
      (e : Entry) (s t : Driver)
      → enter p c e s ≡ some (tt, t)
      → Exact s.dev.stats s.log
      → Traffic (kind_of e) s t
      → Exact t.dev.stats t.log
  Exact-Traffic e s t runs x (inl h) =
      subst (IfReturns (λ _ u. Exact u.dev.stats u.log)) runs (frames-Exact e s h x)
  Exact-Traffic e s t runs x (inr same) = Exact-Same s t same x

  enter-Exact :
      (e : Entry) (s t : Driver)
      → enter p c e s ≡ some (tt, t)
      → Exact s.dev.stats s.log
      → Exact t.dev.stats t.log
  enter-Exact e s t runs x = Exact-Traffic e s t runs x ((enter-Kept p c e s t runs).3)

  module _ (frame_size : ℕ) where
    -- Nothing is counted before the first call, nor by the two calls that start the driver.
    boot-Exact :
        (t : Driver) → boot p c (powered frame_size) ≡ some (tt, t) → Exact t.dev.stats t.log
    boot-Exact t runs = elim ((boot-Kept p c frame_size t runs).3) [
      | inl h ↦ absurd (ground (arith, h))
      | inr same ↦
          Exact-Same (powered frame_size) t same
            (record { sent = refl; bytes = refl; read = refl; written = refl; dropped = refl })
    ]

    Exact-Runs :
        (es : List Event) (s : System)
        → Runs p c frame_size es s
        → Exact s.driver.dev.stats s.driver.log
    Exact-Runs es s (Runs.start runs) = boot-Exact _ runs
    Exact-Runs es s (Runs.call r e h runs) = enter-Exact e _ _ runs (Exact-Runs _ _ r)
    Exact-Runs es s (Runs.work r h runs) = enter-Exact Entry.at_work _ _ runs (Exact-Runs _ _ r)

    -- With the statistics built in, what `zephyr_cyw43_wifi_stats` reports in any state that the
    -- driver reaches from power-on agrees, as words of 32 bits, with the calls made since then: the
    -- frames sent and their bytes; the packets read, each counted as sent or as an error; the
    -- packets handed on, each counted as received or as an error; and the packets released, each
    -- counted as an error.
    pub wifi_stats-Exact :
        (es : List Event) (s : System)
        → Runs p c frame_size es s
        → Exact (wifi_stats s.driver.dev) s.driver.log
    unfolding wifi_stats
    wifi_stats-Exact es s r =
        let x : Exact s.driver.dev.stats s.driver.log = Exact-Runs es s r in
        record {
          sent = x.sent;
          bytes = x.bytes;
          read = x.read;
          written = x.written;
          dropped = x.dropped;
        }
