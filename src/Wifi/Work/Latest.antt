-- ===== src/Wifi/Work/Latest.antt =====
-- Requests that are posted before the work item runs: the device holds one, the last.
use zephyr_cyw43_driver.Prelude.{◌+◌, ◌≡◌, arith, refl, ◌∷◌, List, [], some, length}
use zephyr_cyw43_driver.Prelude.Fault.{M, ◌>>◌, pure}
use zephyr_cyw43_driver.Wifi.Platform.{Platform, Config, Call}
use zephyr_cyw43_driver.Wifi.Device.{Driver, Device, Request}
use zephyr_cyw43_driver.Wifi.Counts.{submits}
use zephyr_cyw43_driver.Wifi.Mgmt.{post}
use zephyr_cyw43_driver.Wifi.Work.{serve, request_work}

-- Several operations of the management interface, up to their requests, in order.
abbrev pub post_all : List Request → M Driver (Unit {0})
post_all [] = pure tt
post_all (r ∷ rs) = do post r; post_all rs

abbrev pub last : Request → List Request → Request
last r [] = r
last r (q ∷ rs) = last q rs

abbrev posted : Request → Driver → Driver
posted r s =
    let d : Device = s.dev in
    record s { dev = record d { req = r }; log = Call.unlock ∷ Call.work_submit ∷ s.log }

-- What a run of posts leaves.
record Posted (s : Driver) (r : Request) (rs : List Request) : Type 0 where
  t : Driver
  posts : post_all (r ∷ rs) s ≡ some (tt, t)
  dev : let d : Device = s.dev in t.dev ≡ record d { req = last r rs }
  counts : submits t.log ≡ submits s.log + length (r ∷ rs)

Posted-post_all : (s : Driver) (r : Request) (rs : List Request) → Posted s r rs
unfolding post
Posted-post_all s r [] = record { t = _; posts = refl; dev = refl; counts = omega arith }
Posted-post_all s r (q ∷ rs) =
    let rest : Posted (posted r s) q rs = Posted-post_all (posted r s) q rs in
    record { t = rest.t; posts = rest.posts; dev = rest.dev; counts = omega (arith, rest.counts) }

-- However many requests are posted before the work item runs, and though each is submitted, the
-- work item then serves the last one: the others are lost. The rest of the device stays as it was.
request_work-post_all :
    (p : Platform) (c : Config) (s : Driver) (r : Request) (rs : List Request)
    → let d : Device = s.dev in
      (t : Driver) × (post_all (r ∷ rs) s ≡ some (tt, t))
      × (submits t.log ≡ submits s.log + length (r ∷ rs))
      × (t.dev ≡ record d { req = last r rs })
      × (request_work p c t ≡ serve p c (last r rs) t)
unfolding request_work
request_work-post_all p c s r rs =
    let all : Posted s r rs = Posted-post_all s r rs in
    (all.t, all.posts, all.counts, all.dev, rw all.dev)
