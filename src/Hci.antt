-- ===== src/Hci.antt =====
-- drivers/wifi/zephyr_cyw43/src/zephyr_cyw43_bt_hci_drv.c, the Bluetooth HCI driver.
pub mod Packets
pub mod Loopback
mod Tests
use zephyr_cyw43_driver.Prelude.{
  ℕ, ◌+◌, ◌-◌, ◌*◌, Bool, true, false, not, ltb, leb, ◌==◌, ◌&&◌, if◌then◌else◌, List, [], ◌∷◌,
  ◌++◌, Option, none, some, length, take, drop, get_or,
}
use zephyr_cyw43_driver.Prelude.Int.{ℤ, pos, neg, is_zero}
use zephyr_cyw43_driver.Prelude.Fault.{M, ◌>>=◌, ◌>>◌, pure, fault, get, modify}

-- `enum bt_buf_type`, the values that `send` names
pub data BufType : Type 0 where
  buf_cmd buf_evt buf_acl_out buf_iso_out : BufType
  other : ℕ → BufType

pub data HciCall : Type 0 where
  hci_write : (txbuf : List ℕ) → (len : ℕ) → HciCall
  hci_read : HciCall
  hci_init : HciCall  -- `cyw43_bluetooth_hci_init`
  unref : HciCall  -- `net_buf_unref`
  get_evt : (evt : ℕ) → (discardable wait : Bool) → HciCall  -- `bt_buf_get_evt`
  get_acl get_iso : HciCall  -- `bt_buf_get_rx`
  recv : (cb : ℕ) → List ℕ → HciCall  -- the callback, with the bytes put into the buffer

-- The kernel, the Bluetooth host and the library. A null buffer is the answer 0.
pub record HciPlatform : Type 0 where
  pub einval : ℕ
  pub h4_none : ℕ  -- BT_HCI_H4_NONE, and so on
  pub h4_cmd : ℕ
  pub h4_acl : ℕ
  pub h4_sco : ℕ
  pub h4_evt : ℕ
  pub h4_iso : ℕ
  pub le_meta_event : ℕ
  pub le_advertising_report : ℕ
  pub evt_hdr_size : ℕ
  pub acl_hdr_size : ℕ
  pub iso_hdr_size : ℕ
  pub iso_hdr_len : ℕ → ℕ  -- `bt_iso_hdr_len`
  pub ret : List HciCall → ℤ
  pub stored : List HciCall → List ℕ  -- `cyw43_rxbuf` behind `cyw43_bluetooth_hci_read`
  pub tailroom : List HciCall → ℕ

-- `recv_cb` is the driver's data; `txbuf` is `cyw43_txbuf`.
pub record Hci : Type 0 where
  pub recv_cb : Option ℕ
  pub txbuf : List ℕ
  pub log : List HciCall

-- CYW43_PACKET_HEADER_SIZE
abbrev pub header_size : ℕ
header_size = 4

abbrev pub perform : HciCall → M Hci (Unit {0})
perform c s = some (tt, record s { log = c ∷ s.log })

-- `zephyr_cyw43_bt_hci_open` and `zephyr_cyw43_bt_hci_close`
unfoldable pub open_hci : ℕ → M Hci ℤ
open_hci cb = do modify (λ s. record s { recv_cb = some cb }); pure (pos 0)

unfoldable pub close_hci : M Hci ℤ
close_hci = do modify (λ s. record s { recv_cb = none }); pure (pos 0)

-- `sys_le16_to_cpu` of the two bytes at the offset `at`.
abbrev pub le16_at : List ℕ → ℕ → ℕ
le16_at bytes at = get_or bytes at 0 + 256 * get_or bytes (at + 1) 0

module _ (p : HciPlatform) where
  abbrev pub invoke : HciCall → M Hci ℤ
  invoke c s = some (p.ret (c ∷ s.log), record s { log = c ∷ s.log })

  -- `zephyr_cyw43_bt_hci_init` and `zephyr_cyw43_bt_hci_setup`
  unfoldable init_hci : M Hci ℤ
  init_hci = invoke hci_init

  unfoldable setup_hci : M Hci ℤ
  setup_hci = pure (pos 0)

  -- The packet type that goes in front of a buffer of the type.
  abbrev pub type_of : BufType → ℕ
  type_of buf_cmd = p.h4_cmd
  type_of buf_evt = p.h4_evt
  type_of buf_acl_out = p.h4_acl
  type_of buf_iso_out = p.h4_iso
  type_of (other t) = p.h4_none

  abbrev pub type_code : BufType → ℤ
  type_code (other t) = neg p.einval
  type_code _ = pos 0

  -- `memcpy(&cyw43_txbuf[CYW43_PACKET_HEADER_SIZE-1], ...)`
  abbrev pub copy_out : List ℕ → M Hci (Unit {0})
  copy_out packet s =
      if leb (header_size - 1 + length packet) (length s.txbuf)
      then some (
        tt,
        record s {
          txbuf =
              take (header_size - 1) s.txbuf
              ++ packet
              ++ drop (header_size - 1 + length packet) s.txbuf;
        },
      )
      else none

  -- `bytes` are the buffer's packet.
  unfoldable pub send : BufType → List ℕ → M Hci ℤ
  send t bytes = elim (type_of t == p.h4_none) [
    | true ↦ (do perform unref; pure (type_code t))
    | false ↦ (do
      copy_out (type_of t ∷ bytes)
      s ← get
      rv ← invoke (hci_write s.txbuf (length (type_of t ∷ bytes) + header_size))
      perform unref
      pure rv)
  ]

  -- `net_buf_add_mem(buf, &rxmsg[1], len)` and the call of the callback; `buf` is whether the
  -- buffer is not null.
  unfoldable pub deliver : Bool → List ℕ → ℕ → M Hci (Unit {0})
  deliver false rxmsg len = fault
  deliver true rxmsg len = do
    s ← get
    elim (leb (1 + len) (length rxmsg)) [
      | false ↦ fault
      | true ↦ (elim s.recv_cb [
        | none ↦ fault
        | some cb ↦ perform (recv cb (take len (drop 1 rxmsg)))
      ])
    ]

  -- `rxmsg[EVT_HEADER_EVENT] == ... && rxmsg[EVT_LE_META_SUBEVENT] == ...`
  abbrev pub is_report : List ℕ → Bool
  is_report rxmsg =
      (get_or rxmsg 1 0 == p.le_meta_event) && (get_or rxmsg 3 0 == p.le_advertising_report)

  unfoldable pub process_evt : List ℕ → M Hci (Unit {0})
  unfolding deliver
  process_evt rxmsg = do
    buf ← invoke (get_evt (get_or rxmsg 1 0) (is_report rxmsg) (not (is_report rxmsg)))
    deliver (not (is_zero buf)) rxmsg (p.evt_hdr_size + get_or rxmsg 2 0)

  unfoldable pub process_acl : List ℕ → M Hci (Unit {0})
  unfolding deliver
  process_acl rxmsg = do
    buf ← invoke get_acl
    s ← get
    let len = p.acl_hdr_size + le16_at rxmsg 3
    elim (not (is_zero buf) && ltb (p.tailroom s.log) len) [
      | true ↦ perform unref
      | false ↦ deliver (not (is_zero buf)) rxmsg len
    ]

  unfoldable pub process_iso : List ℕ → M Hci (Unit {0})
  unfolding deliver
  process_iso rxmsg = do
    buf ← invoke get_iso
    deliver (not (is_zero buf)) rxmsg (p.iso_hdr_size + p.iso_hdr_len (le16_at rxmsg 3))

  -- The switch on the packet type; the sizes of the three headers are not 0, so only an unknown
  -- type has the length 0, which is dropped.
  unfoldable pub dispatch : ℕ → List ℕ → M Hci (Unit {0})
  unfolding process_evt process_acl process_iso
  dispatch t rxmsg =
      if t == p.h4_evt
      then process_evt rxmsg
      else if t == p.h4_acl
      then process_acl rxmsg
      else if t == p.h4_iso
      then process_iso rxmsg
      else if t == p.h4_sco
      then process_iso rxmsg
      else pure tt

  -- `cyw43_bluetooth_hci_process`
  unfoldable pub process : M Hci (Unit {0})
  unfolding dispatch
  process = do
    rc ← invoke hci_read
    s ← get
    let rxmsg = drop (header_size - 1) (p.stored s.log)
    dispatch (get_or rxmsg 0 0) rxmsg
