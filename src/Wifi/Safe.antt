-- ===== src/Wifi/Safe.antt =====
-- That no entry of the driver faults, from a device whose texts are terminated.
pub mod Requested
pub mod Requests
pub mod Entries
use zephyr_cyw43_driver.Prelude.{
  ℕ, ◌≡◌, ◌≢◌, Bool, true, false, arith, List, Option, none, some, length,
}
use zephyr_cyw43_driver.Prelude.Fault.{
  M, ◌>>=◌, ◌>>◌, pure, get, Returns, Returns-bind, Returns-weaken,
}
use zephyr_cyw43_driver.Prelude.Text.{strlen}
use zephyr_cyw43_driver.Wifi.Platform.{Platform, Call}
use zephyr_cyw43_driver.Wifi.Device.{Driver, Device, Request, ConnectParams, perform, invoke}

-- Credentials as the driver stores them: terminated, in buffers of 33 and 65 bytes.
pub record Texts (c : ConnectParams) : Type 0 where
  pub ssid_len : ℕ
  pub psk_len : ℕ
  pub ssid : strlen c.ssid ≡ some ssid_len
  pub psk : strlen c.psk ≡ some psk_len
  pub ssid_room : length c.ssid ≡ 33
  pub psk_room : length c.psk ≡ 65

-- What every entry keeps; `frame_size` is the size of the frame buffer, and `Q` what is known of the
-- pending request and the scan's callback.
pub record WellFormed (frame_size : ℕ) (Q : Request → Option ℕ → Type 0) (d : Device) : Type 0 where
  pub station : Texts d.connect_params
  pub access_point : Texts d.ap_params
  pub frame_room : length d.frame_buf ≡ frame_size
  pub pending : Q d.req d.scan_cb

abbrev pub IsScan : Request → Type 0
IsScan Request.active_scan = Unit
IsScan Request.passive_scan = Unit
IsScan _ = ⊥

-- The callback is set where the pending request is a scan.
abbrev pub Ready : Request → Option ℕ → Type 0
Ready r o = IsScan r → o ≢ none

module _ (frame_size : ℕ) (Q : Request → Option ℕ → Type 0) where
  -- From a device that is well-formed the program returns, and leaves one.
  unfoldable pub Safe : {A : Type 0} → M Driver A → Type 0
  Safe m =
      (s : Driver)
      → WellFormed frame_size Q s.dev
      → Returns (λ a t. WellFormed frame_size Q t.dev) (m s)

  pub Safe-bind :
      {A B : Type 0} (m : M Driver A) (f : A → M Driver B)
      → Safe m
      → ((a : A) → Safe (f a))
      → Safe (m >>= f)
  unfolding Safe
  Safe-bind m f h k s w =
      Returns-bind (λ a t. WellFormed frame_size Q t.dev) (λ b t. WellFormed frame_size Q t.dev) m f
        s (h s w) (λ a t v. k a t v)

  pub Safe-then :
      {B : Type 0} (m : M Driver (Unit {0})) (k : M Driver B) → Safe m → Safe k → Safe (m >> k)
  Safe-then m k h h' = Safe-bind m (λ _. k) h (λ _. h')

  pub Safe-pure : {A : Type 0} (a : A) → Safe (pure a)
  unfolding Safe
  Safe-pure a s w = w

  pub Safe-perform : (c : Call) → Safe (perform c)
  unfolding Safe
  Safe-perform c s w = w

  pub Safe-invoke : (p : Platform) (c : Call) → Safe (invoke p c)
  unfolding Safe
  Safe-invoke p c s w = w

  pub Safe-get :
      {B : Type 0} (f : Driver → M Driver B)
      → ((s : Driver) → WellFormed frame_size Q s.dev → Safe (f s))
      → Safe (get >>= f)
  unfolding Safe
  Safe-get f h s w = h s w s w

  -- A choice.
  pub Safe-Bool :
      {A : Type 0} (m k : M Driver A) (b : Bool)
      → Safe m
      → Safe k
      → Safe (elim b as (λ x. M Driver A) [ true ↦ m | false ↦ k ])
  Safe-Bool m k true h h' = h
  Safe-Bool m k false h h' = h'
