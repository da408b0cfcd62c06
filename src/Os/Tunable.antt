-- ===== src/Os/Tunable.antt =====
-- A file that holds one number, as the kernel's tunables do.
use bettercpu.Base.{◌≡◌, ap, true, some, [], ◌++◌, Text}
use bettercpu.Base.Int.{ℤ, int_max}
use bettercpu.Os.{Os}
use bettercpu.Os.OStream.{write_value}
use bettercpu.Os.Laws.{IsFileSystem, content-write_value}
use bettercpu.Os.Reading.{read_int_or}
use bettercpu.Std.Number.{print_int}
use bettercpu.Std.Stream.RoundTrip.{Fits, Blank, extract_signed-print_int}

module _ (O : Os) (fs : IsFileSystem O) (p : Text) where
  open fs use {content}

  -- The file can be opened, and the system takes what is written to it.
  abbrev pub IsTunable : Type 0
  IsTunable =
      ((s : O.State) → (O.open_out p s).0 ≡ true)
      × ((t : Text) (s : O.State) → (O.write_out p t s).0 ≡ true)

  pub content-write_int :
      (z : ℤ) (s : O.State)
      → IsTunable
      → content (write_value O p (print_int z) s).1 p ≡ some (print_int z)
  content-write_int z s (opens, takes) =
      content-write_value O fs p (print_int z) s (opens s) (takes (print_int z) (O.open_out p s).1)

  -- The file holds the number, and blanks behind it.
  pub read_int-print_int :
      (fresh z : ℤ) (rest : Text) (s : O.State)
      → Fits int_max z
      → Blank rest
      → content s p ≡ some (print_int z ++ rest)
      → (read_int_or O fresh p s).0 ≡ z
  unfolding read_int_or
  read_int-print_int fresh z rest s fits blank held =
      rw (fs.read-content p s, held)
        (ap (λ r. r.0) (extract_signed-print_int int_max fresh [] z rest tt blank fits))

  pub content-read_int_or :
      (fresh : ℤ) (q : Text) (s : O.State) → content (read_int_or O fresh p s).1 q ≡ content s q
  unfolding read_int_or
  content-read_int_or fresh q s = fs.content-read p q s
