-- ===== src/Wifi/Counts.antt =====
-- How often a log holds a call of one kind.
use zephyr_cyw43_driver.Prelude.{ℕ, suc, ◌+◌, List, [], ◌∷◌, none}
use zephyr_cyw43_driver.Wifi.Platform.{Network, Call, wifi_join, work_submit, lock, unlock, scan_cb}
use zephyr_cyw43_driver.Wifi.Platform.{connect_result_event, disconnect_result_event}
use zephyr_cyw43_driver.Wifi.Platform.{pkt_unref, pkt_read, pkt_write, send_ethernet}

abbrev pub joins : List Call → ℕ
joins [] = 0
joins (wifi_join n ∷ l) = suc (joins l)
joins (_ ∷ l) = joins l

-- The networks that a log asks to join, newest first.
abbrev pub networks : List Call → List Network
networks [] = []
networks (wifi_join n ∷ l) = n ∷ networks l
networks (_ ∷ l) = networks l

abbrev pub submits : List Call → ℕ
submits [] = 0
submits (work_submit ∷ l) = suc (submits l)
submits (_ ∷ l) = submits l

abbrev pub locks : List Call → ℕ
locks [] = 0
locks (lock ∷ l) = suc (locks l)
locks (_ ∷ l) = locks l

abbrev pub unlocks : List Call → ℕ
unlocks [] = 0
unlocks (unlock ∷ l) = suc (unlocks l)
unlocks (_ ∷ l) = unlocks l

-- The calls of the scan's callback that report the end of the scan.
abbrev pub scan_ends : List Call → ℕ
scan_ends [] = 0
scan_ends (scan_cb cb none ∷ l) = suc (scan_ends l)
scan_ends (_ ∷ l) = scan_ends l

abbrev pub connect_events : List Call → ℕ
connect_events [] = 0
connect_events (connect_result_event rv ∷ l) = suc (connect_events l)
connect_events (_ ∷ l) = connect_events l

abbrev pub disconnect_events : List Call → ℕ
disconnect_events [] = 0
disconnect_events (disconnect_result_event rv ∷ l) = suc (disconnect_events l)
disconnect_events (_ ∷ l) = disconnect_events l

abbrev pub unrefs : List Call → ℕ
unrefs [] = 0
unrefs (pkt_unref ∷ l) = suc (unrefs l)
unrefs (_ ∷ l) = unrefs l

-- The frames handed to the library, and their bytes; the packets read, and written.
abbrev pub sends : List Call → ℕ
sends [] = 0
sends (send_ethernet itf len bytes ∷ l) = suc (sends l)
sends (_ ∷ l) = sends l

abbrev pub sent_bytes : List Call → ℕ
sent_bytes [] = 0
sent_bytes (send_ethernet itf len bytes ∷ l) = sent_bytes l + len
sent_bytes (_ ∷ l) = sent_bytes l

abbrev pub reads : List Call → ℕ
reads [] = 0
reads (pkt_read len ∷ l) = suc (reads l)
reads (_ ∷ l) = reads l

abbrev pub writes : List Call → ℕ
writes [] = 0
writes (pkt_write bytes ∷ l) = suc (writes l)
writes (_ ∷ l) = writes l
