-- ===== src/Os/Laws.antt =====
-- What the theorems on files assume of the system, a section parameter wherever it is used: a file
-- has a content, reading shows it, and an output stream replaces it.
use bettercpu.Base.{
  true, false, Option, none, some, [], ◌∷◌, ◌++◌, ◌≡◌, arith, Text, eq_text, eq_text_refl,
  if◌then◌else◌, Option,
}
use bettercpu.Os.{Os}
use bettercpu.Os.OStream.{OStream, put, close, write_value}

-- The text of a file with `more` behind it.
abbrev pub extend : Text → Option Text → Option Text
extend more none = some more
extend more (some old) = some (old ++ more)

pub record IsFileSystem (O : Os) : Type 0 where
  pub content : O.State → Text → Option Text
  pub read-content : (p : Text) (s : O.State) → (O.read_file p s).0 ≡ content s p
  pub content-read : (p q : Text) (s : O.State) → content (O.read_file p s).1 q ≡ content s q
  -- a file that is opened for writing is emptied, and one that cannot be opened is left alone
  pub content-open :
      (p q : Text) (s : O.State)
      → content (O.open_out p s).1 q
        ≡ (if (O.open_out p s).0 then if eq_text p q then some [] else content s q else content s q)
  -- a write that is taken goes behind what the file holds; one that is refused does nothing
  pub content-write :
      (p t q : Text) (s : O.State)
      → content (O.write_out p t s).1 q ≡ (
          if (O.write_out p t s).0
          then if eq_text p q then extend t (content s q) else content s q
          else content s q)

module _ (O : Os) (fs : IsFileSystem O) where
  open fs use {content, content-open, content-write}

  content-put_ne :
      (v : Text) (o : OStream) (q : Text) (s : O.State)
      → eq_text o.path q ≡ false
      → content (put O v o s).1 q ≡ content s q
  unfolding put
  content-put_ne v o q s ne = ground (arith, content-write o.path (o.buffered ++ v) q s)

  content-close_ne :
      (o : OStream) (q : Text) (s : O.State)
      → eq_text o.path q ≡ false
      → content (close O o s) q ≡ content s q
  unfolding close
  content-close_ne o q s ne = ground (arith, content-write o.path o.buffered q s)

  path-put : (v : Text) (o : OStream) (s : O.State) → (put O v o s).0.path ≡ o.path
  unfolding put
  path-put v o s = ground arith

  -- A setter touches its own file alone, whatever the system answers.
  pub content-write_value_ne :
      (p v q : Text) (s : O.State)
      → eq_text p q ≡ false
      → content (write_value O p v s).1 q ≡ content s q
  unfolding write_value put close
  content-write_value_ne p v q s ne = ground (
    arith,
    content-open p q s,
    content-write p v q (O.open_out p s).1,
    content-write p v q (O.write_out p v (O.open_out p s).1).1,
  )

  -- Where the file can be opened and the system takes the value, the file holds the value.
  pub content-write_value :
      (p v : Text) (s : O.State)
      → (O.open_out p s).0 ≡ true
      → (O.write_out p v (O.open_out p s).1).0 ≡ true
      → content (write_value O p v s).1 p ≡ some v
  unfolding write_value put close
  content-write_value p [] s opened taken = ground (arith, content-open p p s, eq_text_refl p)
  content-write_value p (c ∷ v) s opened taken =
      ground
        (arith, content-open p p s, eq_text_refl p, content-write p (c ∷ v) p (O.open_out p s).1)

  -- Where it cannot be opened, nothing changes.
  pub content-write_value_shut :
      (p v q : Text) (s : O.State)
      → (O.open_out p s).0 ≡ false
      → content (write_value O p v s).1 q ≡ content s q
  unfolding write_value
  content-write_value_shut p v q s shut = ground (arith, content-open p q s)
