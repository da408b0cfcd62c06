-- ===== src/Governor/Paths.antt =====
-- Which cpufreq paths are equal.
use bettercpu.Base.{
  ℕ, Bool, true, false, ◌≡◌, ◌≢◌, ◌∙◌, ap, refl, sym, Text, codes, eq_text, eq_text-append,
  eq_text-ne, drop,
}
use bettercpu.Base.Int.{ℤ, pos}
use bettercpu.Governor.{
  CpufreqFile, scaling_governor, scaling_max_freq, scaling_min_freq, energy_performance_preference,
  file_name, cpufreq_path,
}
use bettercpu.Std.Number.{print_nat, print_int, leading_digits, value}
use bettercpu.Std.Number.RoundTrip.{print_nat-All, value-print_nat, leading_digits-append}

unfoldable pub same_file : CpufreqFile → CpufreqFile → Bool
same_file scaling_governor scaling_governor = true
same_file scaling_max_freq scaling_max_freq = true
same_file scaling_min_freq scaling_min_freq = true
same_file energy_performance_preference energy_performance_preference = true
same_file _ _ = false

eq_text-file_name : (f g : CpufreqFile) → eq_text (file_name f) (file_name g) ≡ same_file f g
unfolding eq_text file_name same_file
eq_text-file_name scaling_governor scaling_governor = refl
eq_text-file_name scaling_governor scaling_max_freq = refl
eq_text-file_name scaling_governor scaling_min_freq = refl
eq_text-file_name scaling_governor energy_performance_preference = refl
eq_text-file_name scaling_max_freq scaling_governor = refl
eq_text-file_name scaling_max_freq scaling_max_freq = refl
eq_text-file_name scaling_max_freq scaling_min_freq = refl
eq_text-file_name scaling_max_freq energy_performance_preference = refl
eq_text-file_name scaling_min_freq scaling_governor = refl
eq_text-file_name scaling_min_freq scaling_max_freq = refl
eq_text-file_name scaling_min_freq scaling_min_freq = refl
eq_text-file_name scaling_min_freq energy_performance_preference = refl
eq_text-file_name energy_performance_preference scaling_governor = refl
eq_text-file_name energy_performance_preference scaling_max_freq = refl
eq_text-file_name energy_performance_preference scaling_min_freq = refl
eq_text-file_name energy_performance_preference energy_performance_preference = refl

-- Of one CPU.
pub cpufreq_path-same_file :
    (id : ℤ) (f g : CpufreqFile) → eq_text (cpufreq_path id f) (cpufreq_path id g) ≡ same_file f g
unfolding cpufreq_path
cpufreq_path-same_file id f g =
    eq_text-append (codes "/sys/devices/system/cpu/cpu") _ _
    ∙ eq_text-append (print_int id) _ _
    ∙ eq_text-append (codes "/cpufreq/") _ _
    ∙ eq_text-file_name f g

-- The number that follows the common beginning of the paths.
id_of : Text → ℕ
id_of t = value 0 (leading_digits (drop 27 t))

id_of-cpufreq_path : (n : ℕ) (f : CpufreqFile) → id_of (cpufreq_path (pos n) f) ≡ n
unfolding id_of cpufreq_path print_int
id_of-cpufreq_path n f =
    ap (value 0) (leading_digits-append (print_nat n) _ (print_nat-All n) refl) ∙ value-print_nat n

-- Of two CPUs the paths differ.
pub cpufreq_path-ne :
    (n k : ℕ) (f g : CpufreqFile)
    → n ≢ k
    → eq_text (cpufreq_path (pos n) f) (cpufreq_path (pos k) g) ≡ false
cpufreq_path-ne n k f g ne =
    eq_text-ne _ _ (λ e. ne (sym (id_of-cpufreq_path n f) ∙ ap id_of e ∙ id_of-cpufreq_path k g))
