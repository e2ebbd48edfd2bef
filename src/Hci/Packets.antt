-- ===== src/Hci/Packets.antt =====
-- What becomes of the packets in both directions.
use zephyr_cyw43_driver.Prelude.{
  ℕ, suc, ◌+◌, ◌≤◌, ◌≡◌, ◌≢◌, ◌⊎◌, arith, refl, true, false, not, ltb, ◌==◌, if◌then◌else◌, List,
  ◌∷◌, ◌++◌, some, none, Bool-cases, inl, inr, length, take, drop, get_or,
}
use zephyr_cyw43_driver.Prelude.Int.{neg, is_zero}
use zephyr_cyw43_driver.Prelude.Fault.{Returns, ◌>>=◌}
use zephyr_cyw43_driver.Hci.{
  HciCall, HciPlatform, Hci, BufType, other, hci_write, hci_read, unref, get_evt, get_acl, get_iso,
  recv,
}
use zephyr_cyw43_driver.Hci.{
  close_hci, le16_at, type_of, is_report, send, deliver, process_acl, process_evt, process_iso,
  dispatch, process,
}

module _ (p : HciPlatform) where
  -- What the library is given for a packet of the type `t`: three bytes that stood in the transmit
  -- buffer, the packet's type, its bytes, and what stood behind them.
  abbrev pub framed : BufType → List ℕ → List ℕ → List ℕ
  framed t bytes txbuf =
      take 3 txbuf ++ (type_of p t ∷ bytes) ++ drop (3 + suc (length bytes)) txbuf

  -- Where the known packet types are not the one for none, a buffer of a known type that fits the
  -- transmit buffer is framed and written once, with a length one more than the three bytes, the
  -- type and the packet take, and the library's code is returned. A buffer of another type is
  -- refused with -EINVAL, and nothing is written. Either way it is released once.
  pub send_hci_lem :
      (t : BufType) (bytes : List ℕ) (s : Hci)
      → 4 + length bytes ≤ length s.txbuf
      → p.h4_cmd ≢ p.h4_none
      → p.h4_evt ≢ p.h4_none
      → p.h4_acl ≢ p.h4_none
      → p.h4_iso ≢ p.h4_none
      → let written : List HciCall =
          hci_write (framed t bytes s.txbuf) (suc (3 + suc (length bytes))) ∷ s.log in
        Returns
          (λ rv s'.
            (((n : ℕ) × (t ≡ other n))
              × (rv ≡ neg p.einval)
              × (s' ≡ record s { log = unref ∷ s.log }))
            ⊎ (((n : ℕ) → t ≢ other n)
                × (rv ≡ p.ret written)
                × (s' ≡ record s { txbuf = framed t bytes s.txbuf; log = unref ∷ written })))
          (send p t bytes s)
  unfolding send
  send_hci_lem BufType.buf_cmd bytes s fits c e a i = ground arith
  send_hci_lem BufType.buf_evt bytes s fits c e a i = ground arith
  send_hci_lem BufType.buf_acl_out bytes s fits c e a i = ground arith
  send_hci_lem BufType.buf_iso_out bytes s fits c e a i = ground arith
  send_hci_lem (other n) bytes s fits c e a i = ground arith

  -- The message behind the header, and the length of its packet, as an ACL packet.
  abbrev pub message : List HciCall → List ℕ
  message l = drop 3 (p.stored (hci_read ∷ l))

  abbrev pub acl_length : List HciCall → ℕ
  acl_length l = p.acl_hdr_size + le16_at (message l) 3

  deliver_lem :
      (cb : ℕ) (rxmsg : List ℕ) (len : ℕ) (s : Hci)
      → s.recv_cb ≡ some cb
      → suc len ≤ length rxmsg
      → deliver p true rxmsg len s
        ≡ some (tt, record s { log = recv cb (take len (drop 1 rxmsg)) ∷ s.log })
  unfolding deliver
  deliver_lem cb rxmsg len s set whole = ground arith

  process_acl-deliver :
      (cb : ℕ) (rxmsg : List ℕ) (s : Hci)
      → s.recv_cb ≡ some cb
      → let got : List HciCall = get_acl ∷ s.log in
        let len : ℕ = p.acl_hdr_size + le16_at rxmsg 3 in
        is_zero (p.ret got) ≡ false
        → suc len ≤ length rxmsg
        → process_acl p rxmsg s
          ≡ some (
            tt,
            record s {
              log =
                  (if ltb (p.tailroom got) len then unref else recv cb (take len (drop 1 rxmsg)))
                  ∷ got;
            },
          )
  unfolding process_acl
  process_acl-deliver cb rxmsg s set buf whole =
      let len : ℕ = p.acl_hdr_size + le16_at rxmsg 3 in
      elim (Bool-cases (ltb (p.tailroom (get_acl ∷ s.log)) len)) [
        | inl long ↦ rw (buf, ◌>>=◌, long) refl
        | inr short ↦
            rw (buf, ◌>>=◌, short, buf)
              (deliver_lem cb rxmsg len (record s { log = get_acl ∷ s.log }) set whole)
      ]

  -- With a callback set and a buffer to be had, an ACL packet whose header does not promise more
  -- than the receive buffer holds is either longer than the buffer has room for, and then the
  -- buffer is released, or it reaches the callback, whole and without its type.
  pub process_acl_lem :
      (cb : ℕ) (s : Hci)
      → s.recv_cb ≡ some cb
      → get_or (message s.log) 0 0 ≡ p.h4_acl
      → p.h4_acl ≢ p.h4_evt
      → is_zero (p.ret (get_acl ∷ hci_read ∷ s.log)) ≡ false
      → suc (acl_length s.log) ≤ length (message s.log)
      → let got : List HciCall = get_acl ∷ hci_read ∷ s.log in
        let len : ℕ = acl_length s.log in
        process p s
        ≡ some (
          tt,
          record s {
            log =
                (if ltb (p.tailroom got) len
                  then unref
                  else recv cb (take len (drop 1 (message s.log))))
                ∷ got;
          },
        )
  unfolding process dispatch
  process_acl_lem cb s set acl ne buf whole =
      let first : (get_or (message s.log) 0 0 == p.h4_evt) ≡ false = ground arith in
      let second : (get_or (message s.log) 0 0 == p.h4_acl) ≡ true = ground arith in
      rw (first, second)
        (process_acl-deliver cb (message s.log) (record s { log = hci_read ∷ s.log }) set buf whole)

  -- With a callback set, an event that the receive buffer holds whole reaches the callback without
  -- its type if a buffer was to be had. If none was, the driver goes on with a null pointer; for
  -- an advertising report it does not wait for a buffer.
  pub process_evt_lem :
      (cb : ℕ) (s : Hci)
      → s.recv_cb ≡ some cb
      → get_or (message s.log) 0 0 ≡ p.h4_evt
      → suc (p.evt_hdr_size + get_or (message s.log) 2 0) ≤ length (message s.log)
      → let msg : List ℕ = message s.log in
        let got : List HciCall =
          get_evt (get_or msg 1 0) (is_report p msg) (not (is_report p msg)) ∷ hci_read ∷ s.log in
        process p s ≡ (
          if is_zero (p.ret got)
          then none
          else some (
            tt,
            record s { log = recv cb (take (p.evt_hdr_size + get_or msg 2 0) (drop 1 msg)) ∷ got },
          ))
  unfolding process process_evt deliver
  process_evt_lem cb s set evt whole = ground arith

  -- The length of its packet, as an ISO packet.
  abbrev pub iso_length : List HciCall → ℕ
  iso_length l = p.iso_hdr_size + p.iso_hdr_len (le16_at (message l) 3)

  -- With a callback set, an ISO or SCO packet that the receive buffer holds whole reaches the
  -- callback without its type if a buffer was to be had, whatever room that buffer has. If none
  -- was, the driver goes on with a null pointer.
  process_iso_lem :
      (cb : ℕ) (s : Hci)
      → s.recv_cb ≡ some cb
      → (get_or (message s.log) 0 0 ≡ p.h4_iso) ⊎ (get_or (message s.log) 0 0 ≡ p.h4_sco)
      → get_or (message s.log) 0 0 ≢ p.h4_evt
      → get_or (message s.log) 0 0 ≢ p.h4_acl
      → suc (iso_length s.log) ≤ length (message s.log)
      → let got : List HciCall = get_iso ∷ hci_read ∷ s.log in
        process p s ≡ (
          if is_zero (p.ret got)
          then none
          else some (
            tt,
            record s { log = recv cb (take (iso_length s.log) (drop 1 (message s.log))) ∷ got },
          ))
  unfolding process dispatch process_iso deliver
  process_iso_lem cb s set (inl iso) e a whole = ground arith
  process_iso_lem cb s set (inr sco) e a whole = ground arith

  -- After `close` an event that comes with a buffer to put it into makes the driver call a null
  -- pointer.
  process-close_hci :
      (s : Hci)
      → let msg : List ℕ = message s.log in
        let got : List HciCall =
          get_evt (get_or msg 1 0) (is_report p msg) (not (is_report p msg)) ∷ hci_read ∷ s.log in
        get_or msg 0 0 ≡ p.h4_evt
        → is_zero (p.ret got) ≡ false
        → (close_hci >>= (λ rv. process p)) s ≡ none
  unfolding close_hci process process_evt deliver
  process-close_hci s evt buf = ground arith
