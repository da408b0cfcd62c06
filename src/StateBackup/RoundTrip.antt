-- ===== src/StateBackup/RoundTrip.antt =====
-- The text that `save` writes, as `load` reads it.
use mathlib.Core.List.{flatten, cons-ne-nil}
use bettercpu.Base.{
  ℕ, ◌≤◌, ◌≡◌, refl, true, false, Option, none, some, List, [], ◌∷◌, ◌++◌, append-nil, arith, Text,
  All, is_space, length,
}
use bettercpu.Base.Int.{ℤ, pos, int_max}
use bettercpu.Governor.{CpuFreqState}
use bettercpu.Std.Number.{print_nat, print_int, u64_max}
use bettercpu.Std.Number.RoundTrip.{stoi-print_int, print_int-ne}
use bettercpu.Std.Result.{ok}
use bettercpu.Std.Stream.{open_stream, ignore, newline, left}
use bettercpu.Std.Stream.RoundTrip.{
  Blank, IsWord, IsGap, Fits, print_int-IsWord, extract_text-word, extract_signed-print_int,
  extract_unsigned-print_nat,
}
use bettercpu.StateBackup.{
  SystemStateBackup, endl, blank, epp_text, cpu_pieces, io_pieces, pieces, parse_epp_token,
  load_cpu, load_cpus, load_ios, load_rest, parse,
}

-- The fields of a state have values of their types, and its names are words.
pub record IsSavableCpu (c : CpuFreqState) : Type 0 where
  pub id_fits : Fits int_max c.cpu_id
  pub governor_word : IsWord c.governor
  pub min_fits : c.min_freq_khz ≤ u64_max
  pub max_fits : c.max_freq_khz ≤ u64_max
  pub epp_fits : (z : ℤ) → c.epp_value ≡ some z → Fits int_max z

abbrev pub IsSavableIo : Text × Text → Type 0
IsSavableIo (device, scheduler) = IsWord device × IsWord scheduler

pub record IsSavable (st : SystemStateBackup) : Type 0 where
  pub swappiness_fits : Fits int_max st.swappiness
  pub pressure_fits : Fits int_max st.vfs_cache_pressure
  pub ratio_fits : Fits int_max st.dirty_ratio
  pub background_fits : Fits int_max st.dirty_background_ratio
  pub cpus : All IsSavableCpu st.cpu_freq_states
  pub cpu_count : length st.cpu_freq_states ≤ u64_max
  pub ios : All IsSavableIo st.io_schedulers
  pub io_count : length st.io_schedulers ≤ u64_max

-- The line of a CPU behind the end of the line before it.
unfoldable pub cpu_text : CpuFreqState → Text → Text
cpu_text c rest =
    newline
    ∷ (print_int c.cpu_id
        ++ (blank
            ∷ (c.governor
                ++ (blank
                    ∷ (print_nat c.min_freq_khz
                        ++ (blank
                            ∷ (print_nat c.max_freq_khz
                                ++ (blank ∷ (epp_text c.epp_value ++ rest)))))))))

epp_text-IsWord : (e : Option ℤ) → IsWord (epp_text e)
unfolding epp_text
epp_text-IsWord none = (cons-ne-nil _ _, (refl, (refl, (refl, (refl, tt)))))
epp_text-IsWord (some z) = print_int-IsWord z

parse_epp_token-epp_text :
    (e : Option ℤ) → ((z : ℤ) → e ≡ some z → Fits int_max z) → parse_epp_token (epp_text e) ≡ ok e
unfolding parse_epp_token epp_text
parse_epp_token-epp_text none h = refl
parse_epp_token-epp_text (some z) h =
    rw (print_int-ne z b'n' _ (omega arith), stoi-print_int z (h z refl).0 (h z refl).1)

pub load_cpu-cpu_text :
    (c : CpuFreqState) (rest : Text)
    → IsSavableCpu c
    → Blank rest
    → load_cpu (open_stream (cpu_text c rest)) ≡ ok (c, left rest false)
unfolding load_cpu cpu_text
load_cpu-cpu_text c rest h k = rw (
  extract_signed-print_int int_max (pos 0) endl c.cpu_id _ (refl, tt) refl h.id_fits,
  extract_text-word [] (blank ∷ []) c.governor _ (refl, tt) h.governor_word refl,
  extract_unsigned-print_nat u64_max 0 (blank ∷ []) c.min_freq_khz _ (refl, tt) refl h.min_fits,
  extract_unsigned-print_nat u64_max 0 (blank ∷ []) c.max_freq_khz _ (refl, tt) refl h.max_fits,
  extract_text-word [] (blank ∷ []) (epp_text c.epp_value) rest (refl, tt) (epp_text-IsWord _) k,
  parse_epp_token-epp_text c.epp_value h.epp_fits,
)

unfoldable pub cpus_text : List CpuFreqState → Text → Text
cpus_text [] rest = rest
cpus_text (c ∷ cs) rest = cpu_text c (cpus_text cs rest)

pub cpus_text-Blank :
    (cs : List CpuFreqState) (rest : Text) → Blank rest → Blank (cpus_text cs rest)
unfolding cpus_text cpu_text
cpus_text-Blank [] rest k = k
cpus_text-Blank (c ∷ cs) rest k = refl

pub left-cpus_text :
    (cs : List CpuFreqState) (r : ℕ) (rest : Text)
    → left (cpus_text cs (r ∷ rest)) false ≡ open_stream (cpus_text cs (r ∷ rest))
unfolding cpus_text cpu_text
left-cpus_text [] r rest = refl
left-cpus_text (c ∷ cs) r rest = refl

load_cpus-cpus_text :
    (cs : List CpuFreqState) (r : ℕ) (rest : Text)
    → All IsSavableCpu cs
    → is_space r ≡ true
    → load_cpus (length cs) (open_stream (cpus_text cs (r ∷ rest)))
      ≡ ok (cs, open_stream (r ∷ rest))
unfolding load_cpus cpus_text
load_cpus-cpus_text [] r rest h k = refl
load_cpus-cpus_text (c ∷ cs) r rest h k = rw (
  load_cpu-cpu_text c (cpus_text cs (r ∷ rest)) h.0 (cpus_text-Blank cs (r ∷ rest) k),
  left-cpus_text cs r rest,
  load_cpus-cpus_text cs r rest h.1 k,
)

-- The lines of the schedulers behind `gap`.
unfoldable pub ios_text : Text → List (Text × Text) → Text
ios_text gap [] = gap
ios_text gap ((device, scheduler) ∷ ios) =
    gap ++ (device ++ (blank ∷ (scheduler ++ ios_text endl ios)))

ios_text-Blank : (ios : List (Text × Text)) → Blank (ios_text endl ios)
unfolding ios_text
ios_text-Blank [] = refl
ios_text-Blank (_ ∷ ios) = refl

left-ios_text :
    (ios : List (Text × Text)) → left (ios_text endl ios) false ≡ open_stream (ios_text endl ios)
unfolding ios_text
left-ios_text [] = refl
left-ios_text (_ ∷ ios) = refl

load_ios-ios_text :
    (gap : Text) (ios : List (Text × Text))
    → IsGap gap
    → All IsSavableIo ios
    → load_ios (length ios) (open_stream (ios_text gap ios)) ≡ ios
unfolding load_ios ios_text
load_ios-ios_text gap [] g h = refl
load_ios-ios_text gap ((device, scheduler) ∷ ios) g h = rw (
  extract_text-word [] gap device _ g h.0.0 refl,
  extract_text-word [] (blank ∷ []) scheduler _ (refl, tt) h.0.1 (ios_text-Blank ios),
  left-ios_text ios,
  load_ios-ios_text endl ios (refl, tt) h.1,
)

-- The whole file, bracketed the way it is read.
unfoldable pub file_text : SystemStateBackup → Text
file_text st =
    print_int st.swappiness
    ++ (newline
        ∷ (print_int st.vfs_cache_pressure
            ++ (newline
                ∷ (print_int st.dirty_ratio
                    ++ (newline
                        ∷ (print_int st.dirty_background_ratio
                            ++ (newline
                                ∷ (print_nat (length st.cpu_freq_states)
                                    ++ cpus_text st.cpu_freq_states (
                                        newline
                                        ∷ (print_nat (length st.io_schedulers)
                                            ++ (newline ∷ ios_text [] st.io_schedulers)))))))))))

parse-file_text : (st : SystemStateBackup) → IsSavable st → parse (file_text st) ≡ ok st
unfolding parse file_text load_rest ignore
parse-file_text st h =
    let more =
      newline ∷ (print_nat (length st.io_schedulers) ++ (newline ∷ ios_text [] st.io_schedulers)) in
    rw (
      extract_signed-print_int int_max (pos 0) [] st.swappiness _ tt refl h.swappiness_fits,
      extract_signed-print_int int_max (pos 0) endl st.vfs_cache_pressure _ (refl, tt) refl
          h.pressure_fits,
      extract_signed-print_int int_max (pos 0) endl st.dirty_ratio _ (refl, tt) refl h.ratio_fits,
      extract_signed-print_int int_max (pos 0) endl st.dirty_background_ratio _ (refl, tt) refl
          h.background_fits,
      extract_unsigned-print_nat u64_max 0 endl (length st.cpu_freq_states) _ (refl, tt)
          (cpus_text-Blank st.cpu_freq_states more refl) h.cpu_count,
      left-cpus_text st.cpu_freq_states _ _,
      load_cpus-cpus_text st.cpu_freq_states _ _ h.cpus refl,
      extract_unsigned-print_nat u64_max 0 endl (length st.io_schedulers) _ (refl, tt) refl
          h.io_count,
      load_ios-ios_text [] st.io_schedulers tt h.ios,
    )

flatten-cpu_pieces :
    (cs : List CpuFreqState) (ps : List Text)
    → newline ∷ flatten (cpu_pieces cs ++ ps) ≡ cpus_text cs (newline ∷ flatten ps)
unfolding flatten cpu_pieces cpus_text cpu_text
flatten-cpu_pieces [] ps = refl
flatten-cpu_pieces (c ∷ cs) ps = rw (flatten-cpu_pieces cs ps)

flatten-io_pieces :
    (gap : Text) (ios : List (Text × Text)) → gap ++ flatten (io_pieces ios) ≡ ios_text gap ios
unfolding flatten io_pieces ios_text
flatten-io_pieces gap [] = append-nil gap
flatten-io_pieces gap ((device, scheduler) ∷ ios) = rw (flatten-io_pieces endl ios)

-- What `save` writes is that file.
pub flatten-pieces : (st : SystemStateBackup) → flatten (pieces st) ≡ file_text st
unfolding flatten pieces file_text
flatten-pieces st =
    rw (flatten-cpu_pieces st.cpu_freq_states _, flatten-io_pieces [] st.io_schedulers)

-- The text that `save` inserts for a savable backup is read by `load`'s parser as that backup:
-- numbers, names, optional preferences and both counts.
pub parse-pieces : (st : SystemStateBackup) → IsSavable st → parse (flatten (pieces st)) ≡ ok st
parse-pieces st h = rw flatten-pieces (parse-file_text st h)
