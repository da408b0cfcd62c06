-- ===== src/PolicyEngine/Relief.antt =====
-- What the engine does to the memory tunables under rising pressure.
use bettercpu.Base.{
  ℕ, ◌+◌, ◌-◌, ◌≡◌, ◌∙◌, ◌≤◌, refl, ap, arith, true, false, some, ◌++◌, Text, codes, eq_text,
  Bool-cases, inl, inr, ltb, if◌then◌else◌,
}
use bettercpu.Base.Int.{pos, int_max, ltb_ℤ, ◌-ℤ◌, ◌+ℤ◌, wrap_int, wrap_int-pos}
use bettercpu.IoStorage.{read_dirty_ratio, set_dirty_ratio}
use bettercpu.MemGuard.{read_vfs_cache_pressure, set_vfs_cache_pressure}
use bettercpu.Os.{Os}
use bettercpu.Os.Laws.{IsFileSystem, content-write_value_ne}
use bettercpu.Os.OStream.{write_value}
use bettercpu.Os.Reading.{read_int_or}
use bettercpu.Os.Tunable.{IsTunable, content-write_int, read_int-print_int, content-read_int_or}
use bettercpu.PolicyEngine.Policies.{relieve, lower_dirty_ratio}
use bettercpu.Std.Number.{print_int}
use bettercpu.Std.Stream.RoundTrip.{Blank}

-- The new ratio.
unfoldable pub lowered : ℕ → ℕ
lowered n = if ltb 5 n then n - 5 else 5

abbrev pub vfs_cache_pressure_file : Text
vfs_cache_pressure_file = codes "/proc/sys/vm/vfs_cache_pressure"

abbrev pub dirty_ratio_file : Text
dirty_ratio_file = codes "/proc/sys/vm/dirty_ratio"

sub_five : (n : ℕ) → ltb 5 n ≡ true → pos n -ℤ pos 5 ≡ pos (n - 5)
unfolding ◌-ℤ◌
sub_five n more = ground arith

minus_five : (n : ℕ) → n ≤ int_max → ltb 5 n ≡ true → wrap_int (pos n -ℤ pos 5) ≡ pos (n - 5)
minus_five n fits more = ap wrap_int (sub_five n more) ∙ wrap_int-pos (n - 5) (omega arith)

add_twenty : (v : ℕ) → pos v +ℤ pos 20 ≡ pos (v + 20)
unfolding ◌+ℤ◌
add_twenty v = ground arith

plus_twenty : (v : ℕ) → v + 20 ≤ int_max → wrap_int (pos v +ℤ pos 20) ≡ pos (v + 20)
plus_twenty v fits = ap wrap_int (add_twenty v) ∙ wrap_int-pos (v + 20) fits

over_five : (n : ℕ) → ltb_ℤ (pos 5) (pos n) ≡ ltb 5 n
over_five n = ground arith

module _ (O : Os) (fs : IsFileSystem O) where
  open fs use {content, content-read}

  content-lower_dirty_ratio_ne :
      (q : Text) (s : O.State)
      → eq_text dirty_ratio_file q ≡ false
      → content (lower_dirty_ratio O s).1 q ≡ content s q
  unfolding lower_dirty_ratio read_dirty_ratio set_dirty_ratio
  content-lower_dirty_ratio_ne q s ne =
      let read = content-read_int_or O fs dirty_ratio_file (pos 0) q in
      elim (Bool-cases (ltb_ℤ (pos 5) (read_dirty_ratio O s).0)) [
        | inl e ↦ rw e (
            content-write_value_ne O fs dirty_ratio_file _ q _ ne
            ∙ read (read_dirty_ratio O s).1
            ∙ read s)
        | inr e ↦ rw e (content-write_value_ne O fs dirty_ratio_file _ q _ ne ∙ read s)
      ]

  content-lower_dirty_ratio :
      (n : ℕ) (rest : Text) (s : O.State)
      → n ≤ int_max
      → Blank rest
      → content s dirty_ratio_file ≡ some (print_int (pos n) ++ rest)
      → IsTunable O fs dirty_ratio_file
      → content (lower_dirty_ratio O s).1 dirty_ratio_file ≡ some (print_int (pos (lowered n)))
  unfolding lower_dirty_ratio lowered read_dirty_ratio set_dirty_ratio
  content-lower_dirty_ratio n rest s fits blank held w =
      let read = read_int-print_int O fs dirty_ratio_file (pos 0) (pos n) rest in
      let held₁ = content-read_int_or O fs dirty_ratio_file (pos 0) dirty_ratio_file s ∙ held in
      let s₁ = (read_int_or O (pos 0) dirty_ratio_file s).1 in
      elim (Bool-cases (ltb 5 n)) [
        | inl e ↦
            rw
              (
                read s (fits, omega arith) blank held,
                read s₁ (fits, omega arith) blank held₁,
                over_five n,
                e,
                minus_five n fits e,
              )
              (content-write_int O fs dirty_ratio_file (pos (n - 5)) _ w)
        | inr e ↦
            rw (read s (fits, omega arith) blank held, over_five n, e)
              (content-write_int O fs dirty_ratio_file (pos 5) _ w)
      ]

  relieved :
      (v : ℕ) (s : O.State)
      → v + 20 ≤ int_max
      → (read_int_or O (pos 100) vfs_cache_pressure_file s).0 ≡ pos v
      → relieve O s
        ≡ (lower_dirty_ratio O
            (write_value O vfs_cache_pressure_file
              (print_int (pos (v + 20)))
              (read_int_or O (pos 100) vfs_cache_pressure_file s).1).1).1
  unfolding relieve read_vfs_cache_pressure set_vfs_cache_pressure
  relieved v s fits read =
      ap
        (λ z.
          (lower_dirty_ratio O
            (write_value O vfs_cache_pressure_file (print_int z)
              (read_int_or O (pos 100) vfs_cache_pressure_file s).1).1).1)
        (ap (λ z. wrap_int (z +ℤ pos 20)) read ∙ plus_twenty v fits)

  -- Under rising pressure 20 is added to the cache pressure, and the dirty ratio becomes 5 less if
  -- it is more than 5, and 5 otherwise; both files hold numbers in range and can be written.
  pub content-relieve :
      (v n : ℕ) (rest more : Text) (s : O.State)
      → v + 20 ≤ int_max
      → n ≤ int_max
      → Blank rest
      → Blank more
      → content s vfs_cache_pressure_file ≡ some (print_int (pos v) ++ rest)
      → content s dirty_ratio_file ≡ some (print_int (pos n) ++ more)
      → IsTunable O fs vfs_cache_pressure_file
      → IsTunable O fs dirty_ratio_file
      → (content (relieve O s) vfs_cache_pressure_file ≡ some (print_int (pos (v + 20))))
        × (content (relieve O s) dirty_ratio_file ≡ some (print_int (pos (lowered n))))
  unfolding eq_text
  content-relieve v n rest more s fits fits' blank blank' held held' w w' =
      let s₁ = (read_int_or O (pos 100) vfs_cache_pressure_file s).1 in
      let read =
        read_int-print_int O fs vfs_cache_pressure_file (pos 100) (pos v) rest s
          (omega arith, omega arith) blank held in
      rw (relieved v s fits read) (
        let s₂ = (write_value O vfs_cache_pressure_file (print_int (pos (v + 20))) s₁).1 in
        (
          content-lower_dirty_ratio_ne vfs_cache_pressure_file s₂ refl
              ∙ content-write_int O fs vfs_cache_pressure_file (pos (v + 20)) s₁ w,
          content-lower_dirty_ratio n more s₂ fits' blank'
              (content-write_value_ne O fs vfs_cache_pressure_file _ dirty_ratio_file s₁ refl
                ∙ content-read_int_or O fs vfs_cache_pressure_file (pos 100) dirty_ratio_file s
                ∙ held')
              w',
        ))
