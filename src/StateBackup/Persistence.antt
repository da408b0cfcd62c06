-- ===== src/StateBackup/Persistence.antt =====
-- `save` and `load` through a file.
use mathlib.Core.List.{flatten}
use bettercpu.Base.{◌≡◌, ◌∙◌, ap, true, some, Text}
use bettercpu.Os.{Os}
use bettercpu.Os.Laws.{IsFileSystem}
use bettercpu.Os.Stored.{Takes, content-put_all}
use bettercpu.Std.Result.{ok, bind}
use bettercpu.StateBackup.{SystemStateBackup, pieces, save, load}
use bettercpu.StateBackup.RoundTrip.{IsSavable, parse-pieces}

module _ (O : Os) (fs : IsFileSystem O) (path : Text) (takes : Takes O fs path) where
  open fs use {content}

  -- A backup that is saved is reported as saved, and stands in the file whole.
  pub save-content :
      (st : SystemStateBackup) (s : O.State)
      → (O.open_out path s).0 ≡ true
      → ((save O path st s).0 ≡ true)
        × (content (save O path st s).1 path ≡ some (flatten (pieces st)))
  unfolding save
  save-content st s opened =
      let (is_open, good, stored) = content-put_all O fs path (pieces st) s takes opened in
      (rw (is_open, good), rw is_open stored)

  -- `load` depends on the file alone.
  load-content :
      (st : SystemStateBackup) (s : O.State)
      → IsSavable st
      → content s path ≡ some (flatten (pieces st))
      → (load O path s).0 ≡ ok (some st)
  unfolding load
  load-content st s h stored =
      rw (fs.read-content path s, stored) (ap (λ r. bind r (λ b. ok (some b))) (parse-pieces st h))

  -- A savable backup that `StateBackup::save` writes to a file that opens and takes text is
  -- reported as saved, and `StateBackup::load` gives back the same backup, however the system has
  -- changed in between, as long as the file holds what was written.
  pub load-save :
      (st : SystemStateBackup) (s t : O.State)
      → IsSavable st
      → (O.open_out path s).0 ≡ true
      → content t path ≡ content (save O path st s).1 path
      → ((save O path st s).0 ≡ true) × ((load O path t).0 ≡ ok (some st))
  load-save st s t h opened kept =
      let (saved, stored) = save-content st s opened in (saved, load-content st t h (kept ∙ stored))
