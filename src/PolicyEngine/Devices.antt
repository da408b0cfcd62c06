-- ===== src/PolicyEngine/Devices.antt =====
-- The device policy on a machine without NVMe devices.
use bettercpu.Base.{
  ◌≡◌, ◌∙◌, ap, refl, arith, Bool, true, false, List, [], ◌∷◌, All, Text, codes, starts_with,
}
use bettercpu.IoStorage.{DiskKind, nvme, ssd_sata, hdd, unknown, detect_kind}
use bettercpu.Os.{Os}
use bettercpu.Os.Laws.{IsFileSystem}
use bettercpu.PolicyEngine.{Engine}
use bettercpu.PolicyEngine.Policies.{tune_kind, tune_devices}

-- The name of a device that is not NVMe.
abbrev pub IsOtherDevice : Text → Type 0
IsOtherDevice device = starts_with device (codes "nvme") ≡ false

-- Some kind but NVMe.
abbrev is_nvme : DiskKind → Bool
is_nvme nvme = true
is_nvme _ = false

module _ (O : Os) where
  detect_kind-other :
      (device : Text) (s : O.State)
      → IsOtherDevice device
      → is_nvme (detect_kind O device s).0 ≡ false
  unfolding detect_kind
  detect_kind-other device s h = ground (arith, h)

  tune_kind-other :
      (kind : DiskKind) (device : Text) (e : Engine) (s : O.State)
      → is_nvme kind ≡ false
      → tune_kind O kind device e s ≡ (e, s)
  unfolding tune_kind
  tune_kind-other nvme device e s h = cc
  tune_kind-other ssd_sata device e s h = refl
  tune_kind-other hdd device e s h = refl
  tune_kind-other unknown device e s h = refl

  tune_devices-cons :
      (device : Text) (devices : List Text) (e : Engine) (s : O.State)
      → IsOtherDevice device
      → tune_devices O (device ∷ devices) e s ≡ tune_devices O devices e (detect_kind O device s).1
  unfolding tune_devices
  tune_devices-cons device devices e s h =
      ap (λ r. tune_devices O devices r.0 r.1)
        (tune_kind-other (detect_kind O device s).0 device e (detect_kind O device s).1
          (detect_kind-other device s h))

module _ (O : Os) (fs : IsFileSystem O) where
  open fs use {content}

  content-detect_kind :
      (device q : Text) (s : O.State)
      → IsOtherDevice device
      → content (detect_kind O device s).1 q ≡ content s q
  unfolding detect_kind
  content-detect_kind device q s h = rw h (fs.content-read _ q s)

  -- On devices whose names do not begin with `nvme` the device policy changes nothing of the engine
  -- and writes to no file.
  pub tune_devices-other :
      (devices : List Text) (e : Engine) (q : Text) (s : O.State)
      → All IsOtherDevice devices
      → ((tune_devices O devices e s).0 ≡ e)
        × (content (tune_devices O devices e s).1 q ≡ content s q)
  unfolding tune_devices
  tune_devices-other [] e q s h = (refl, refl)
  tune_devices-other (device ∷ devices) e q s h =
      let t = (detect_kind O device s).1 in
      let (same, kept) = tune_devices-other devices e q t h.1 in
      rw (tune_devices-cons O device devices e s h.0)
        (same, kept ∙ content-detect_kind device q s h.0)
