-- ===== src/Lifecycle/Module.antt =====
-- linux/main.c: loading and unloading the driver.
use tpce2drv.Prelude.{ℕ, ◌≡◌, refl, Bool, false, List, ◌∷◌, some, inl, inr}
use tpce2drv.Ledger.{Act, acquire, release, held, remove}
use tpce2drv.Device.{eio, Result, Result-cases, failed, ok}
use tpce2drv.Lifecycle.Device.{Created, absent, broken, created}

pub data DriverResource : Type 0 where
  chrdev_region device_class pci_driver : DriverResource

abbrev pub driver_code : DriverResource → ℕ
driver_code chrdev_region = 0
driver_code device_class = 1
driver_code pci_driver = 2

-- `tpce_devices`, the class and the log
pub record Driver : Type 0 where
  pub devs : ℕ → Bool
  pub count : ℕ
  pub cl : Created
  pub log : List (Act DriverResource)

-- What `alloc_chrdev_region`, `class_create` and `pci_register_driver` give.
pub record DriverEnv : Type 0 where
  pub alloc_region : Result ℕ
  pub create_class : Created
  pub register : Result ℕ

-- The call of `class_destroy`, which ignores a null pointer and an error pointer
pub destroy_class : Driver → Driver
destroy_class d = elim d.cl [ created ↦ record d { log = release device_class ∷ d.log } | _ ↦ d ]

abbrev pub unregister_region : Driver → Driver
unregister_region d = record d { log = release chrdev_region ∷ d.log }

-- The class, when `class_create` has returned. The source tests for a null pointer only.
abbrev pub with_class : Driver → Created → Driver
with_class d absent = record d { cl = absent }
with_class d broken = record d { cl = broken }
with_class d created = record d { cl = created; log = acquire device_class ∷ d.log }

abbrev pub register_driver : Driver → Result ℕ → Driver × Result ℕ
unfolding destroy_class
register_driver d (failed e) = (unregister_region (destroy_class d), failed eio)
register_driver d (ok n) = (record d { log = acquire pci_driver ∷ d.log }, ok 0)

abbrev pub after_class : DriverEnv → Driver → Created → Driver × Result ℕ
after_class env d absent = (unregister_region (with_class d absent), failed eio)
after_class env d broken = register_driver (with_class d broken) env.register
after_class env d created = register_driver (with_class d created) env.register

pub drv_init : Driver → DriverEnv → Driver × Result ℕ
unfolding register_driver
drv_init d env =
    let d1 = record d { devs = λ _. false; count = 0 } in
    elim env.alloc_region [
      | failed e ↦ (d1, failed eio)
      | ok n ↦ after_class env (record d1 { log = acquire chrdev_region ∷ d.log }) env.create_class
    ]

pub drv_exit : Driver → Driver
unfolding destroy_class
drv_exit d = unregister_region (destroy_class (record d { log = release pci_driver ∷ d.log }))

-- A failure is -EIO and holds what was held before; a success is 0, and after it the unloading gives the
-- rest back.
unfoldable pub IsLoaded : List DriverResource → Driver × Result ℕ → Type 0
IsLoaded rest (d, failed e) = (held driver_code d.log ≡ some rest) × (e ≡ eio)
IsLoaded rest (d, ok n) = (held driver_code (drv_exit d).log ≡ some rest) × (n ≡ 0)

register-IsLoaded :
    (d : Driver) (r : Result ℕ) (rest : List DriverResource) (c : Created)
    → held driver_code d.log ≡ some (chrdev_region ∷ rest)
    → IsLoaded rest (register_driver (with_class d c) r)
unfolding IsLoaded drv_exit register_driver destroy_class held remove
register-IsLoaded d (failed e) rest absent h = (rw (h, held) refl, refl)
register-IsLoaded d (failed e) rest broken h = (rw (h, held) refl, refl)
register-IsLoaded d (failed e) rest created h = (rw (h, held) refl, refl)
register-IsLoaded d (ok n) rest absent h = (rw (h, held) refl, refl)
register-IsLoaded d (ok n) rest broken h = (rw (h, held) refl, refl)
register-IsLoaded d (ok n) rest created h = (rw (h, held) refl, refl)

class-IsLoaded :
    (d : Driver) (env : DriverEnv) (rest : List DriverResource) (c : Created)
    → held driver_code d.log ≡ some (chrdev_region ∷ rest)
    → IsLoaded rest (after_class env d c)
unfolding IsLoaded held remove
class-IsLoaded d env rest absent h = (rw (h, held) refl, refl)
class-IsLoaded d env rest broken h = register-IsLoaded d env.register rest broken h
class-IsLoaded d env rest created h = register-IsLoaded d env.register rest created h

-- Whatever the kernel's functions give, even an error pointer for the class: drv_init returns 0 or
-- -EIO, a failure holds what was held before, and after a success drv_exit gives everything back.
pub drv_init-IsLoaded :
    (d : Driver) (env : DriverEnv) (rest : List DriverResource)
    → held driver_code d.log ≡ some rest
    → IsLoaded rest (drv_init d env)
unfolding IsLoaded drv_init held
drv_init-IsLoaded d env rest h = elim (Result-cases env.alloc_region) [
  | inl (e, q) ↦ rw (q, drv_init) (h, refl)
  | inr (n, q) ↦
      rw (q, drv_init)
        (class-IsLoaded
          (record d { devs = λ _. false; count = 0; log = acquire chrdev_region ∷ d.log }) env rest
          env.create_class (rw (h, held) refl))
]
