-- ===== src/StateBackup.antt =====
-- core/src/state_backup.cpp: the settings that `start` finds, written to a file of words and read
-- back on the way out.
pub mod RoundTrip
pub mod Persistence
pub mod Faults
use bettercpu.Base.{
  ℕ, zero, suc, Bool, true, false, not, Option, none, some, List, [], ◌∷◌, ◌++◌, Text, codes,
  eq_text, length, if◌then◌else◌,
}
use bettercpu.Base.Int.{ℤ, pos}
use bettercpu.Governor.{CpuFreqState}
use bettercpu.Os.{Os, Act}
use bettercpu.Os.OStream.{open_ostream, put_all, close}
use bettercpu.Std.Number.{print_nat, print_int, stoi, u64_max}
use bettercpu.Std.Result.{Result, ok, bind, M}
use bettercpu.Std.Stream.{
  IStream, open_stream, extract_text, extract_unsigned, extract_int, extract_signed, ignore,
  newline,
}

pub record SystemStateBackup : Type 0 where
  pub cpu_freq_states : List CpuFreqState
  pub swappiness : ℤ
  pub vfs_cache_pressure : ℤ
  pub dirty_ratio : ℤ
  pub dirty_background_ratio : ℤ
  pub io_schedulers : List (Text × Text)

abbrev pub endl : Text
endl = newline ∷ []

abbrev pub blank : ℕ
blank = 32

unfoldable pub none_word : Text
none_word = codes "none"

unfoldable pub epp_text : Option ℤ → Text
unfolding none_word print_int
epp_text none = none_word
epp_text (some epp) = print_int epp

-- The texts that `save` inserts, in order.
unfoldable pub cpu_pieces : List CpuFreqState → List Text
unfolding print_int print_nat epp_text
cpu_pieces [] = []
cpu_pieces (c ∷ cs) =
    print_int c.cpu_id
    ∷ (blank ∷ [])
    ∷ c.governor
    ∷ (blank ∷ [])
    ∷ print_nat c.min_freq_khz
    ∷ (blank ∷ [])
    ∷ print_nat c.max_freq_khz
    ∷ (blank ∷ [])
    ∷ epp_text c.epp_value
    ∷ endl
    ∷ cpu_pieces cs

unfoldable pub io_pieces : List (Text × Text) → List Text
io_pieces [] = []
io_pieces ((device, scheduler) ∷ ios) = device ∷ (blank ∷ []) ∷ scheduler ∷ endl ∷ io_pieces ios

unfoldable pub pieces : SystemStateBackup → List Text
unfolding print_int print_nat cpu_pieces io_pieces
pieces st =
    print_int st.swappiness
    ∷ endl
    ∷ print_int st.vfs_cache_pressure
    ∷ endl
    ∷ print_int st.dirty_ratio
    ∷ endl
    ∷ print_int st.dirty_background_ratio
    ∷ endl
    ∷ print_nat (length st.cpu_freq_states)
    ∷ endl
    ∷ (cpu_pieces st.cpu_freq_states
        ++ print_nat (length st.io_schedulers) ∷ endl ∷ io_pieces st.io_schedulers)

-- `if (epp_token != "none") cpu_state.epp_value = std::stoi(epp_token)`
unfoldable pub parse_epp_token : Text → Result (Option ℤ)
unfolding none_word eq_text stoi
parse_epp_token token =
    if eq_text token none_word then ok none else bind (stoi token) (λ epp. ok (some epp))

-- One round of the loop over the CPUs.
unfoldable pub load_cpu : IStream → Result (CpuFreqState × IStream)
unfolding extract_signed extract_text extract_unsigned parse_epp_token
load_cpu i =
    let (id, i₁) = extract_int (pos 0) i in
    let (governor, i₂) = extract_text [] i₁ in
    let (min_freq, i₃) = extract_unsigned u64_max 0 i₂ in
    let (max_freq, i₄) = extract_unsigned u64_max 0 i₃ in
    let (token, i₅) = extract_text [] i₄ in
    bind (parse_epp_token token) (λ epp. ok (
      record {
        cpu_id = id;
        governor = governor;
        min_freq_khz = min_freq;
        max_freq_khz = max_freq;
        epp_value = epp;
      },
      i₅,
    ))

unfoldable pub load_cpus : ℕ → IStream → Result (List CpuFreqState × IStream)
load_cpus zero i = ok ([], i)
load_cpus (suc n) i = bind (load_cpu i) (λ (c, j). bind (load_cpus n j) (λ (cs, k). ok (c ∷ cs, k)))

unfoldable pub load_ios : ℕ → IStream → List (Text × Text)
unfolding extract_text
load_ios zero i = []
load_ios (suc n) i =
    let (device, i₁) = extract_text [] i in
    let (scheduler, i₂) = extract_text [] i₁ in (device, scheduler) ∷ load_ios n i₂

-- The second half of `load`, behind the CPUs.
unfoldable pub load_rest : (ℤ × ℤ × ℤ × ℤ) → List CpuFreqState × IStream → SystemStateBackup
unfolding extract_unsigned ignore load_ios
load_rest (swappiness, pressure, ratio, background) (cs, i) =
    let (count, j) = extract_unsigned u64_max 0 i in
    record {
      cpu_freq_states = cs;
      swappiness = swappiness;
      vfs_cache_pressure = pressure;
      dirty_ratio = ratio;
      dirty_background_ratio = background;
      io_schedulers = load_ios count (ignore j);
    }

-- What `load` makes of the text of the file.
unfoldable pub parse : Text → Result SystemStateBackup
unfolding extract_signed extract_unsigned load_cpus load_rest
parse text =
    let (swappiness, i₁) = extract_int (pos 0) (open_stream text) in
    let (pressure, i₂) = extract_int (pos 0) i₁ in
    let (ratio, i₃) = extract_int (pos 0) i₂ in
    let (background, i₄) = extract_int (pos 0) i₃ in
    let (count, i₅) = extract_unsigned u64_max 0 i₄ in
    bind (load_cpus count i₅)
      (λ loaded. ok (load_rest (swappiness, pressure, ratio, background) loaded))

module _ (O : Os) where
  unfoldable pub save : Text → SystemStateBackup → Act O.State Bool
  save path st s =
      let (o, s₁) = open_ostream O path s in
      if not o.is_open
      then (false, s₁)
      else (let (o', s₂) = put_all O (pieces st) o s₁ in (not o'.failed, close O o' s₂))

  unfoldable pub load : Text → M O.State (Option SystemStateBackup)
  unfolding parse
  load path s =
      let (file, t) = O.read_file path s in
      (elim file [ none ↦ ok none | some text ↦ bind (parse text) (λ st. ok (some st)) ], t)

  -- `file.good()` of a stream that has just been opened
  unfoldable pub exists : Text → Act O.State Bool
  exists path s =
      let (file, t) = O.read_file path s in (elim file [ none ↦ false | some text ↦ true ], t)

  unfoldable pub remove : Text → Act O.State Bool
  remove path = O.remove_file path
