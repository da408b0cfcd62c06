-- ===== src/Os/OStream.antt =====
-- `std::ofstream`: a short text waits in a buffer, and is written when a text does not fit behind it
-- or the stream is closed; a long one is written at once. What could not be written stays in the
-- buffer. The destructor closes the stream and tells nobody whether the write succeeded.
use bettercpu.Base.{
  ℕ, Bool, true, false, not, List, [], ◌∷◌, ◌++◌, ◌≡◌, ◌<◌, ◌+◌, ◌&&◌, arith, Text, length, ltb,
  if◌then◌else◌,
}
use bettercpu.Std.Number.{is_empty}
use bettercpu.Os.{Os, Act}

-- The put area of the stream, `BUFSIZ - 1` bytes, and the size from which `xsputn` of libstdc++'s
-- `std::basic_filebuf` writes a text at once, with what waits in front of it.
abbrev pub buffer_size : ℕ
buffer_size = 8191

abbrev pub chunk : ℕ
chunk = 1024

-- `n < min(chunk, available)`: the text goes to the put area.
abbrev pub is_buffered : ℕ → ℕ → Bool
is_buffered waiting n = ltb n chunk && ltb (waiting + n) buffer_size

pub record OStream : Type 0 where
  pub path : Text
  pub buffered : Text
  pub is_open : Bool
  -- `badbit` or `failbit`
  pub failed : Bool

module _ (O : Os) where
  -- `std::ofstream stream(path)`
  unfoldable pub open_ostream : Text → Act O.State OStream
  open_ostream p s =
      let (opened, t) = O.open_out p s in
      (record { path = p; buffered = []; is_open = opened; failed = not opened }, t)

  -- `stream << text`
  unfoldable pub put : Text → OStream → Act O.State OStream
  put text o s =
      if o.failed
      then (o, s)
      else if is_buffered (length o.buffered) (length text)
      then (record o { buffered = o.buffered ++ text }, s)
      else (let (taken, t) = O.write_out o.path (o.buffered ++ text) s in
          (record o { buffered = if taken then [] else o.buffered; failed = not taken }, t))

  -- `stream << text << text ...`
  unfoldable pub put_all : List Text → OStream → Act O.State OStream
  unfolding put
  put_all [] o s = (o, s)
  put_all (text ∷ more) o s = let (o', t) = put text o s in put_all more o' t

  -- `stream.close()`, and the destructor
  unfoldable pub close : OStream → O.State → O.State
  close o s =
      if not o.is_open
      then s
      else if is_empty o.buffered
      then s
      else (O.write_out o.path o.buffered s).1

  -- Open a file, insert one text, ask the stream whether it is good, and close it: the body of
  -- `write_value` and of the setters beside it.
  unfoldable pub write_value : Text → Text → Act O.State Bool
  unfolding open_ostream put close
  write_value path value s =
      let (o, s₁) = open_ostream path s in
      if not o.is_open
      then (false, s₁)
      else (let (o', s₂) = put value o s₁ in (not o'.failed, close o' s₂))

  -- A setter of a value shorter than 1024 bytes reports success exactly when its file could be
  -- opened, whether or not the system takes the value.
  pub write_value-result :
      (path value : Text) (s : O.State)
      → length value < chunk
      → (write_value path value s).0 ≡ (O.open_out path s).0
  unfolding write_value
  write_value-result path value s fits = ground arith

  -- Where the system takes a value, the setter reports what the opening does.
  pub write_value-taken :
      (p v : Text) (s : O.State)
      → (O.open_out p s).0 ≡ true
      → (O.write_out p v (O.open_out p s).1).0 ≡ true
      → (write_value p v s).0 ≡ true
  unfolding write_value put
  write_value-taken p v s opened taken = ground arith
