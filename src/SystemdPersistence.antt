-- ===== src/SystemdPersistence.antt =====
-- core/src/systemd_persistence.cpp: the service that starts the daemon at boot.
use bettercpu.Base.{
  Bool, true, false, not, none, some, List, [], ◌∷◌, ◌++◌, Text, codes, ◌==◌, if◌then◌else◌,
}
use bettercpu.Base.Int.{pos, eqb_ℤ}
use bettercpu.Os.{Os, Act}
use bettercpu.Os.OStream.{open_ostream, put_all, close}

has_slash : Text → Bool
has_slash [] = false
has_slash (c ∷ s) = if c == b'/' then true else has_slash s

-- `std::filesystem::path(path).filename()`: what stands behind the last slash
unfoldable pub filename : Text → Text
unfolding has_slash
filename [] = []
filename (c ∷ s) = let rest = filename s in if has_slash (c ∷ s) then rest else c ∷ s

-- What is inserted into the unit file, in order.
unfoldable pub unit_lines : Text → List Text
unit_lines executable_path =
    codes "[Unit]\n"
    ∷ codes "Description=bettercpu adaptive tuning daemon\n"
    ∷ codes "After=multi-user.target\n"
    ∷ codes "\n"
    ∷ codes "[Service]\n"
    ∷ codes "Type=simple\n"
    ∷ codes "ExecStart="
    ∷ executable_path
    ∷ codes " --boot start\n"
    ∷ codes "ExecStop="
    ∷ executable_path
    ∷ codes " stop\n"
    ∷ codes "\n"
    ∷ codes "[Install]\n"
    ∷ codes "WantedBy=multi-user.target\n"
    ∷ []

module _ (O : Os) where
  -- `std::system(command) == 0`
  unfoldable pub succeeds : Text → Act O.State Bool
  succeeds command s = let (status, t) = O.system command s in (eqb_ℤ status (pos 0), t)

  -- The constructor keeps the path of the unit file, the first argument of every method here.
  unfoldable pub install_and_enable : Text → Text → Act O.State Bool
  install_and_enable unit_file_path executable_path s =
      let (o, s₁) = open_ostream O unit_file_path s in
      if not o.is_open
      then (false, s₁)
      else (let (o', s₂) = put_all O (unit_lines executable_path) o s₁ in
          let s₃ = close O o' s₂ in
          if o'.failed
          then (false, s₃)
          else (let (reloaded, s₄) = succeeds (codes "systemctl daemon-reload") s₃ in
              if not reloaded
              then (false, s₄)
              else succeeds (codes "systemctl enable " ++ filename unit_file_path) s₄))

  unfoldable pub disable : Text → Act O.State Bool
  disable unit_file_path = succeeds (codes "systemctl disable " ++ filename unit_file_path)

  unfoldable pub remove : Text → Act O.State Bool
  remove unit_file_path s =
      let (disabled, s₁) = O.system (codes "systemctl disable " ++ filename unit_file_path) s in
      let (error, s₂) = O.fs_remove unit_file_path s₁ in
      elim error [
        | none ↦ succeeds (codes "systemctl daemon-reload") s₂
        | some message ↦ (false, s₂)
      ]
