-- ===== src/Hci/Tests.antt =====
-- Runs of the HCI driver: a command sent, an event received, an ACL packet sent and received.
use zephyr_cyw43_driver.Prelude.{
  ℕ, ◌+◌, ◌≡◌, ◌≢◌, ◌⊎◌, arith, refl, not, ltb, if◌then◌else◌, List, [], ◌∷◌, ◌++◌, some, none,
  take, drop, replicate, length-take, drop-append_of_le, get_or, ◌%◌, ◌^◌,
}
use zephyr_cyw43_driver.Prelude.Int.{pos, neg, is_zero}
use zephyr_cyw43_driver.Prelude.Fault.{Returns, ◌>>=◌}
use zephyr_cyw43_driver.Hci.{
  HciCall, HciPlatform, Hci, BufType, other, hci_write, hci_read, unref, get_evt, get_acl, recv,
  is_report, send, process,
}
use zephyr_cyw43_driver.Hci.Packets.{framed, message, send_hci_lem, process_evt_lem}
use zephyr_cyw43_driver.Hci.Loopback.{Loopback, echoed, process-send}

-- The receive buffer holds the packet `packet`, and more.
abbrev host : List ℕ → HciPlatform
host packet = record {
  einval = 22;
  h4_none = 0;
  h4_cmd = 1;
  h4_acl = 2;
  h4_sco = 3;
  h4_evt = 4;
  h4_iso = 5;
  le_meta_event = 62;
  le_advertising_report = 2;
  evt_hdr_size = 2;
  acl_hdr_size = 4;
  iso_hdr_size = 4;
  iso_hdr_len = λ n. n % 2 ^ 14;
  ret = λ l. pos 1;
  stored = λ l. 0 ∷ 0 ∷ 0 ∷ (packet ++ replicate 16 0);
  tailroom = λ l. 32;
}

abbrev opened : Hci
opened = record { recv_cb = some 7; txbuf = replicate 32 0; log = [] }

abbrev report : List ℕ
report = 4 ∷ 62 ∷ 1 ∷ 2 ∷ []

send_hci_lem_example :
    let written : List HciCall =
      hci_write (framed (host []) BufType.buf_cmd (3 ∷ 12 ∷ 0 ∷ []) opened.txbuf) 8 ∷ [] in
    Returns
      (λ rv s'.
        (((n : ℕ) × (BufType.buf_cmd ≡ other n))
          × (rv ≡ neg 22)
          × (s' ≡ record opened { log = unref ∷ [] }))
        ⊎ (((n : ℕ) → BufType.buf_cmd ≢ other n)
            × (rv ≡ (host []).ret written)
            × (s' ≡ record opened {
              txbuf = framed (host []) BufType.buf_cmd (3 ∷ 12 ∷ 0 ∷ []) opened.txbuf;
              log = unref ∷ written;
            })))
      (send (host []) BufType.buf_cmd (3 ∷ 12 ∷ 0 ∷ []) opened)
send_hci_lem_example =
    send_hci_lem (host []) BufType.buf_cmd (3 ∷ 12 ∷ 0 ∷ []) opened (omega arith) (omega arith)
      (omega arith) (omega arith) (omega arith)

process_evt_lem_example :
    let p : HciPlatform = host report in
    let msg : List ℕ = message p [] in
    let got : List HciCall =
      get_evt (get_or msg 1 0) (is_report p msg) (not (is_report p msg)) ∷ hci_read ∷ [] in
    process p opened ≡ (
      if is_zero (p.ret got)
      then none
      else some (
        tt,
        record opened { log = recv 7 (take (p.evt_hdr_size + get_or msg 2 0) (drop 1 msg)) ∷ got },
      ))
process_evt_lem_example = process_evt_lem (host report) 7 opened refl refl (omega arith)

-- The receive buffer of a chip in loopback: what was written last, and what stood behind it.
abbrev reflected : List HciCall → List ℕ
reflected (hci_read ∷ unref ∷ hci_write tx len ∷ l) = take len tx ++ replicate 8 0
reflected _ = []

abbrev mirror : HciPlatform
mirror = let p : HciPlatform = host [] in record p { stored = reflected }

mirror-Loopback : Loopback mirror
mirror-Loopback = record {
  behind = λ l. replicate 8 0;
  echoes = λ l tx len header fits.
      drop-append_of_le 3 (take len tx) (replicate 8 0) (omega (arith, fits, length-take len tx));
}

process-send_example :
    let sent : List ℕ = 1 ∷ 0 ∷ 2 ∷ 0 ∷ 8 ∷ 9 ∷ [] in
    (send mirror BufType.buf_acl_out sent >>= (λ rv. process mirror)) opened
    ≡ some (
      tt,
      record opened {
        txbuf = framed mirror BufType.buf_acl_out sent opened.txbuf;
        log =
            (if ltb 32 6 then unref else recv 7 sent)
            ∷ get_acl
            ∷ echoed mirror mirror-Loopback sent opened;
      },
    )
process-send_example =
    process-send mirror mirror-Loopback 7 1 0 2 0 (8 ∷ 9 ∷ []) opened (omega arith) (omega arith)
      refl (omega arith) (omega arith) refl refl
