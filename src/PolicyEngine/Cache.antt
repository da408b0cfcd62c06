-- ===== src/PolicyEngine/Cache.antt =====
-- The settings that the engine keeps, so as not to write them again.
use bettercpu.Base.{◌≡◌, true, Text, eq_text_refl, text_eq, arith}
use bettercpu.Base.Int.{ℤ, eqb_ℤ_iff, int_eq}
use bettercpu.Base.Maps.{lookup-insert_self}
use bettercpu.Governor.{set_governor, set_epp}
use bettercpu.IoStorage.{set_scheduler}
use bettercpu.Os.{Os}
use bettercpu.PolicyEngine.{
  Engine, set_governor_if_changed, set_epp_if_changed, set_scheduler_if_changed,
}

module _ (O : Os) where
  pub set_governor_once :
      (id : ℤ) (name : Text) (e : Engine) (s t : O.State)
      → (set_governor O id name s).0 ≡ true
      → set_governor_if_changed O id name (set_governor_if_changed O id name e s).0 t
        ≡ ((set_governor_if_changed O id name e s).0, t)
  unfolding set_governor_if_changed
  set_governor_once id name e s t done =
      ground (arith, lookup-insert_self id name e.applied_governors, eq_text_refl name)

  -- An energy preference whose write was reported as done is not written again: the second call
  -- with the same value does nothing.
  pub set_epp_once :
      (id epp : ℤ) (e : Engine) (s t : O.State)
      → (set_epp O id epp s).0 ≡ true
      → set_epp_if_changed O id epp (set_epp_if_changed O id epp e s).0 t
        ≡ ((set_epp_if_changed O id epp e s).0, t)
  unfolding set_epp_if_changed
  set_epp_once id epp e s t done =
      ground (arith, lookup-insert_self id epp e.applied_epp, eqb_ℤ_iff epp epp)

  pub set_scheduler_once :
      (device name : Text) (e : Engine) (s t : O.State)
      → (set_scheduler O device name s).0 ≡ true
      → set_scheduler_if_changed O device name (set_scheduler_if_changed O device name e s).0 t
        ≡ ((set_scheduler_if_changed O device name e s).0, t)
  unfolding set_scheduler_if_changed
  set_scheduler_once device name e s t done =
      ground (arith, lookup-insert_self device name e.applied_schedulers, eq_text_refl name)
