-- ===== src/Hci/Loopback.antt =====
-- The two directions against each other: a chip in the loopback mode of HCI sends back what it is
-- given.
use zephyr_cyw43_driver.Prelude.{
  ℕ, suc, ◌+◌, ◌*◌, ◌≤◌, ◌≡◌, ◌≢◌, arith, refl, ap, ◌∙◌, false, ltb, List, [], ◌∷◌, ◌++◌, some,
  length, take, drop, get_or, if◌then◌else◌, take-append, length-take, length-drop, length-append,
}
use mathlib.Core.List.{append_assoc}
use zephyr_cyw43_driver.Prelude.Int.{is_zero}
use zephyr_cyw43_driver.Prelude.Fault.{◌>>=◌}
use zephyr_cyw43_driver.Hci.{
  le16_at, HciCall, HciPlatform, Hci, BufType, hci_write, hci_read, unref, get_acl, recv, send,
  process,
}
use zephyr_cyw43_driver.Hci.Packets.{framed, message, acl_length, process_acl_lem}

-- A chip whose next answer is the packet that was written last, with its type: the bytes of the
-- transmit buffer from the fourth on, up to the length the driver gave, which
-- counts the header of 4 bytes. `behind` is what the
-- receive buffer holds behind them.
pub record Loopback (p : HciPlatform) : Type 0 where
  pub behind : List HciCall → List ℕ
  pub echoes :
      (l : List HciCall) (txbuf : List ℕ) (len : ℕ)
      → 4 ≤ len
      → len ≤ length txbuf
      → drop 3 (p.stored (hci_read ∷ unref ∷ hci_write txbuf len ∷ l))
        ≡ drop 3 (take len txbuf) ++ behind l

take-append_suc : (xs ys : List ℕ) → take (suc (length xs)) (xs ++ ys) ≡ xs ++ take 1 ys
take-append_suc [] ys = refl
take-append_suc (x ∷ xs) ys = ap (λ (t : List ℕ). x ∷ t) (take-append_suc xs ys)

-- What the driver's length takes of the frame: the packet, and one byte that stood behind it.
echoed-framed :
    (txbuf packet : List ℕ)
    → 3 ≤ length txbuf
    → drop 3
        (take (suc (3 + length packet)) (take 3 txbuf ++ packet ++ drop (3 + length packet) txbuf))
      ≡ packet ++ take 1 (drop (3 + length packet) txbuf)
echoed-framed [] packet h = absurd (omega arith)
echoed-framed (a ∷ []) packet h = absurd (omega arith)
echoed-framed (a ∷ b ∷ []) packet h = absurd (omega arith)
echoed-framed (a ∷ b ∷ c ∷ rest) packet h =
    let e : 3 + length packet ≡ suc (suc (suc (length packet))) = omega arith in
    rw (e) (take-append_suc packet (drop (length packet) rest))

module _ (p : HciPlatform) (chip : Loopback p) where
  send-acl :
      (bytes : List ℕ) (s : Hci)
      → 4 + length bytes ≤ length s.txbuf
      → p.h4_acl ≢ p.h4_none
      → let tx : List ℕ = framed p BufType.buf_acl_out bytes s.txbuf in
        let written : List HciCall = hci_write tx (suc (3 + suc (length bytes))) ∷ s.log in
        send p BufType.buf_acl_out bytes s
        ≡ some (p.ret written, record s { txbuf = tx; log = unref ∷ written })
  unfolding send
  send-acl bytes s fits known = ground arith

  -- The calls of a packet that was sent, up to its return.
  abbrev pub echoed : List ℕ → Hci → List HciCall
  echoed bytes s =
      hci_read
      ∷ unref
      ∷ hci_write (framed p BufType.buf_acl_out bytes s.txbuf) (suc (3 + suc (length bytes)))
      ∷ s.log

  length-framed :
      (bytes : List ℕ) (s : Hci)
      → 4 + length bytes ≤ length s.txbuf
      → length (framed p BufType.buf_acl_out bytes s.txbuf) ≡ length s.txbuf
  length-framed bytes s fits = omega (
    arith,
    fits,
    length-take 3 s.txbuf,
    length-append (take 3 s.txbuf ++ (p.h4_acl ∷ bytes)) (drop (3 + suc (length bytes)) s.txbuf),
    length-append (take 3 s.txbuf) (p.h4_acl ∷ bytes),
    length-drop (3 + suc (length bytes)) s.txbuf,
  )

  -- The returned message starts with the packet.
  message-echoed :
      (bytes : List ℕ) (s : Hci)
      → 5 + length bytes ≤ length s.txbuf
      → let rest : List ℕ = take 1 (drop (3 + suc (length bytes)) s.txbuf) ++ chip.behind s.log in
        drop 3 (p.stored (echoed bytes s)) ≡ (p.h4_acl ∷ bytes) ++ rest
  message-echoed bytes s fits =
      chip.echoes s.log _ _ (omega arith) (omega (arith, length-framed bytes s (omega arith)))
      ∙ ap (λ (t : List ℕ). t ++ chip.behind s.log)
          (echoed-framed s.txbuf (p.h4_acl ∷ bytes) (omega arith))
      ∙ append_assoc (p.h4_acl ∷ bytes) (take 1 (drop (3 + suc (length bytes)) s.txbuf))
          (chip.behind s.log)

  -- In loopback an ACL packet that is sent reaches the callback as it was sent or, where the host's
  -- buffer has no room for it, is dropped and the buffer released. That is where the header has 4
  -- bytes and promises the bytes that follow it, the transmit buffer has room for the packet and 5
  -- bytes more, the packet types are told apart, a callback is set and the host has a buffer.
  pub process-send :
      (cb handle flags low high : ℕ) (payload : List ℕ) (s : Hci)
      → let bytes : List ℕ = handle ∷ flags ∷ low ∷ high ∷ payload in
        length payload ≡ low + 256 * high
        → 5 + length bytes ≤ length s.txbuf
        → p.acl_hdr_size ≡ 4
        → p.h4_acl ≢ p.h4_none
        → p.h4_acl ≢ p.h4_evt
        → s.recv_cb ≡ some cb
        → is_zero (p.ret (get_acl ∷ echoed bytes s)) ≡ false
        → (send p BufType.buf_acl_out bytes >>= (λ rv. process p)) s
          ≡ some (
            tt,
            record s {
              txbuf = framed p BufType.buf_acl_out bytes s.txbuf;
              log =
                  (if ltb (p.tailroom (get_acl ∷ echoed bytes s)) (length bytes)
                    then unref
                    else recv cb bytes)
                  ∷ get_acl
                  ∷ echoed bytes s;
            },
          )
  process-send cb handle flags low high payload s promised fits header known acl set buf =
      let bytes : List ℕ = handle ∷ flags ∷ low ∷ high ∷ payload in
      let rest : List ℕ = take 1 (drop (3 + suc (length bytes)) s.txbuf) ++ chip.behind s.log in
      let t : Hci = record s {
        txbuf = framed p BufType.buf_acl_out bytes s.txbuf;
        log =
            unref
            ∷ hci_write (framed p BufType.buf_acl_out bytes s.txbuf) (suc (3 + suc (length bytes)))
            ∷ s.log;
      } in
      let msg : message p t.log ≡ (p.h4_acl ∷ bytes) ++ rest = message-echoed bytes s fits in
      let len : acl_length p t.log ≡ length bytes =
        ap (λ x. p.acl_hdr_size + le16_at x 3) msg ∙ omega (arith, header, promised) in
      let whole : suc (acl_length p t.log) ≤ length (message p t.log) =
        omega (arith, len, ap length msg, length-append (p.h4_acl ∷ bytes) rest) in
      let got : take (acl_length p t.log) (drop 1 (message p t.log)) ≡ bytes =
        ap (λ n. take n (drop 1 (message p t.log))) len
        ∙ ap (λ x. take (length bytes) (drop 1 x)) msg
        ∙ take-append bytes rest in
      rw (send-acl bytes s (omega (arith, fits)) known, ◌>>=◌)
        (process_acl_lem p cb t set (ap (λ x. get_or x 0 0) msg) acl buf whole ∙ rw (got, len) refl)
