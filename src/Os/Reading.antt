-- ===== src/Os/Reading.antt =====
-- Reading one value from a file: `std::ifstream file(path); if (file.is_open()) file >> value;`.
use bettercpu.Base.{ℕ, none, some, Text}
use bettercpu.Base.Int.{ℤ}
use bettercpu.Std.Stream.{open_stream, extract_text, extract_unsigned, extract_int}
use bettercpu.Os.{Os, Act}

module _ (O : Os) where
  -- `fresh` is what the variable holds before the read, and the result where the file is not open.
  unfoldable pub read_int_or : ℤ → Text → Act O.State ℤ
  read_int_or fresh path s =
      let (file, t) = O.read_file path s in
      (elim file [ none ↦ fresh | some text ↦ (extract_int fresh (open_stream text)).0 ], t)

  unfoldable pub read_unsigned_or : ℕ → ℕ → Text → Act O.State ℕ
  read_unsigned_or limit fresh path s =
      let (file, t) = O.read_file path s in
      (
        elim file [
          | none ↦ fresh
          | some text ↦ (extract_unsigned limit fresh (open_stream text)).0
        ],
        t,
      )

  unfoldable pub read_word_or : Text → Text → Act O.State Text
  read_word_or fresh path s =
      let (file, t) = O.read_file path s in
      (elim file [ none ↦ fresh | some text ↦ (extract_text fresh (open_stream text)).0 ], t)
