-- ===== src/Governor/Restore.antt =====
-- What `Governor::restore` leaves in the files of its CPU.
use bettercpu.Base.{
  Bool, true, false, ◌≡◌, ◌∙◌, ap, refl, Option, none, some, arith, Text, eq_text, eq_text_sound,
  Bool-cases, inl, inr, if◌then◌else◌,
}
use bettercpu.Base.Int.{ℤ}
use mathlib.Core.Option
use bettercpu.Governor.{
  CpuFreqState, CpufreqFile, scaling_governor, scaling_max_freq, scaling_min_freq,
  energy_performance_preference, cpufreq_path, restore, restore_epp, snapshot, set_epp, parse_epp,
}
use bettercpu.Governor.Paths.{same_file, cpufreq_path-same_file}
use bettercpu.Os.{Os}
use bettercpu.Os.Reading.{read_word_or, read_unsigned_or}
use bettercpu.Os.Laws.{IsFileSystem, content-write_value, content-write_value_ne}
use bettercpu.Os.OStream.{write_value, write_value-taken}
use bettercpu.Std.Number.{print_nat, print_int}

-- The text that a saved state holds for a file; a state with no EPP value holds none.
unfoldable pub setting : CpuFreqState → CpufreqFile → Option Text
setting st scaling_governor = some st.governor
setting st scaling_max_freq = some (print_nat st.max_freq_khz)
setting st scaling_min_freq = some (print_nat st.min_freq_khz)
setting st energy_performance_preference = Option.map print_int st.epp_value

abbrev pub or_else : Option Text → Option Text → Option Text
or_else none o = o
or_else (some t) o = some t

-- The files of the CPU can be opened, and the system takes what is written to them.
pub record IsWritable (O : Os) (id : ℤ) : Type 0 where
  pub opens : (f : CpufreqFile) (s : O.State) → (O.open_out (cpufreq_path id f) s).0 ≡ true
  pub takes :
      (f : CpufreqFile) (t : Text) (s : O.State) → (O.write_out (cpufreq_path id f) t s).0 ≡ true

-- Four writes in a row to the files of one CPU, seen from the file `f`.
settled :
    (st : CpuFreqState) (f : CpufreqFile) (c₀ c₁ c₂ c₃ : Option Text)
    → c₁ ≡ (if same_file scaling_governor f then some st.governor else c₀)
    → c₂ ≡ (if same_file scaling_min_freq f then some (print_nat st.min_freq_khz) else c₁)
    → c₃ ≡ (if same_file scaling_max_freq f then some (print_nat st.max_freq_khz) else c₂)
    → (if same_file energy_performance_preference f
        then or_else (Option.map print_int st.epp_value) c₃
        else c₃)
      ≡ or_else (setting st f) c₀
unfolding setting same_file
settled st scaling_governor c₀ c₁ c₂ c₃ p q r = ground arith
settled st scaling_max_freq c₀ c₁ c₂ c₃ p q r = ground arith
settled st scaling_min_freq c₀ c₁ c₂ c₃ p q r = ground arith
settled st energy_performance_preference c₀ c₁ c₂ c₃ p q r = ground arith

module _ (O : Os) (fs : IsFileSystem O) where
  open fs use {content}

  module _ (id : ℤ) (w : IsWritable O id) where
    write-content :
        (f g : CpufreqFile) (v : Text) (s : O.State)
        → content (write_value O (cpufreq_path id f) v s).1 (cpufreq_path id g)
          ≡ (if same_file f g then some v else content s (cpufreq_path id g))
    write-content f g v s = elim (Bool-cases (same_file f g)) [
      | inl e ↦
          rw (e, ← eq_text_sound _ _ (cpufreq_path-same_file id f g ∙ e))
            (content-write_value O fs (cpufreq_path id f) v s (w.opens f s) (w.takes f v _))
      | inr e ↦ rw e (content-write_value_ne O fs _ v _ s (cpufreq_path-same_file id f g ∙ e))
    ]

    write-result :
        (f : CpufreqFile) (v : Text) (s : O.State)
        → (write_value O (cpufreq_path id f) v s).0 ≡ true
    write-result f v s = write_value-taken O _ v s (w.opens f s) (w.takes f v _)

  module _ (id : ℤ) (w : IsWritable O id) where
    content-restore_epp :
        (e : Option ℤ) (b : Bool) (f : CpufreqFile) (s : O.State)
        → content (restore_epp O id e b s).1 (cpufreq_path id f) ≡ (
            if same_file energy_performance_preference f
            then or_else (Option.map print_int e) (content s (cpufreq_path id f))
            else content s (cpufreq_path id f))
    unfolding restore_epp
    content-restore_epp none b f s = ground arith
    content-restore_epp (some z) b f s =
        write-content id w energy_performance_preference f (print_int z) s

    restore_epp-result : (e : Option ℤ) (s : O.State) → (restore_epp O id e true s).0 ≡ true
    unfolding restore_epp
    restore_epp-result none s = refl
    restore_epp-result (some z) s = write-result id w energy_performance_preference (print_int z) s

  module _ (st : CpuFreqState) (w : IsWritable O st.cpu_id) where
    -- `Governor::restore` leaves in each of the CPU's four files what the state says, and leaves a
    -- file of which it says nothing as it was; the files can be written.
    pub content-restore :
        (f : CpufreqFile) (s : O.State)
        → content (restore O st s).1 (cpufreq_path st.cpu_id f)
          ≡ or_else (setting st f) (content s (cpufreq_path st.cpu_id f))
    unfolding restore setting
    content-restore f s =
        let write = write-content st.cpu_id w in
        let id = st.cpu_id in
        let s₁ = (write_value O (cpufreq_path id scaling_governor) st.governor s).1 in
        let s₂ =
          (write_value O (cpufreq_path id scaling_min_freq) (print_nat st.min_freq_khz) s₁).1 in
        let s₃ =
          (write_value O (cpufreq_path id scaling_max_freq) (print_nat st.max_freq_khz) s₂).1 in
        content-restore_epp id w st.epp_value _ f s₃
        ∙ settled st f _ _ _ _ (write scaling_governor f st.governor s)
            (write scaling_min_freq f (print_nat st.min_freq_khz) s₁)
            (write scaling_max_freq f (print_nat st.max_freq_khz) s₂)

    -- A restore whose writes are all taken reports success.
    pub restore-result : (s : O.State) → (restore O st s).0 ≡ true
    unfolding restore
    restore-result s =
        let id = st.cpu_id in
        let s₁ = (write_value O (cpufreq_path id scaling_governor) st.governor s).1 in
        let s₂ =
          (write_value O (cpufreq_path id scaling_min_freq) (print_nat st.min_freq_khz) s₁).1 in
        rw
          (
            write-result id w scaling_governor st.governor s,
            write-result id w scaling_min_freq (print_nat st.min_freq_khz) s₁,
            write-result id w scaling_max_freq (print_nat st.max_freq_khz) s₂,
          )
          (restore_epp-result id w st.epp_value _)

  content-restore_epp_ne :
      (id : ℤ) (e : Option ℤ) (b : Bool) (q : Text) (s : O.State)
      → eq_text (cpufreq_path id energy_performance_preference) q ≡ false
      → content (restore_epp O id e b s).1 q ≡ content s q
  unfolding restore_epp
  content-restore_epp_ne id none b q s ne = refl
  content-restore_epp_ne id (some z) b q s ne = content-write_value_ne O fs _ (print_int z) q s ne

  -- `Governor::restore` changes no file but the four of its CPU, whatever the system answers.
  pub content-restore_ne :
      (st : CpuFreqState) (q : Text) (s : O.State)
      → ((f : CpufreqFile) → eq_text (cpufreq_path st.cpu_id f) q ≡ false)
      → content (restore O st s).1 q ≡ content s q
  unfolding restore
  content-restore_ne st q s ne =
      content-restore_epp_ne st.cpu_id st.epp_value _ q _ (ne energy_performance_preference)
      ∙ content-write_value_ne O fs _ _ q _ (ne scaling_max_freq)
      ∙ content-write_value_ne O fs _ _ q _ (ne scaling_min_freq)
      ∙ content-write_value_ne O fs _ _ q _ (ne scaling_governor)

  -- A saved state with no EPP value leaves the preference alone.
  pub restore-keeps_epp :
      (st : CpuFreqState) (s : O.State)
      → st.epp_value ≡ none
      → content (restore O st s).1 (cpufreq_path st.cpu_id energy_performance_preference)
        ≡ content s (cpufreq_path st.cpu_id energy_performance_preference)
  unfolding restore restore_epp same_file
  restore-keeps_epp st s e =
      rw (e, restore_epp)
        (content-write_value_ne O fs _ _ _ _ (cpufreq_path-same_file _ _ _)
          ∙ content-write_value_ne O fs _ _ _ _ (cpufreq_path-same_file _ _ _)
          ∙ content-write_value_ne O fs _ _ _ _ (cpufreq_path-same_file _ _ _))

  snapshot-epp :
      (id : ℤ) (s : O.State)
      → (snapshot O id s).0.epp_value
        ≡ parse_epp (content s (cpufreq_path id energy_performance_preference))
  unfolding snapshot read_word_or read_unsigned_or
  snapshot-epp id s =
      ap parse_epp (
        fs.read-content _ _ ∙ fs.content-read _ _ _ ∙ fs.content-read _ _ _ ∙ fs.content-read _ _ _)

  -- An energy preference that is no number is lost: after the daemon has set its own value,
  -- restoring the snapshot taken before leaves the daemon's value in the file, which can be
  -- written.
  pub epp_not_restored :
      (id : ℤ) (z : ℤ) (s t : O.State)
      → IsWritable O id
      → parse_epp (content s (cpufreq_path id energy_performance_preference)) ≡ none
      → content
          (restore O (snapshot O id s).0 (set_epp O id z t).1).1
          (cpufreq_path id energy_performance_preference)
        ≡ some (print_int z)
  unfolding set_epp snapshot same_file
  epp_not_restored id z s t w named =
      restore-keeps_epp (snapshot O id s).0 (set_epp O id z t).1 (snapshot-epp id s ∙ named)
      ∙ write-content id w energy_performance_preference energy_performance_preference (print_int z)
          t
