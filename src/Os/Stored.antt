-- ===== src/Os/Stored.antt =====
-- What an output stream leaves in its file, where the system takes every write.
use mathlib.Core.List.{flatten}
use bettercpu.Base.{
  true, false, some, List, [], ◌∷◌, ◌++◌, append_assoc, append-nil, ◌≡◌, ◌∙◌, ap, refl, sym, Text,
  eq_text_refl, length, Bool-cases, inl, inr,
}
use bettercpu.Os.{Os}
use bettercpu.Std.Number.{is_empty}
use bettercpu.Os.Laws.{IsFileSystem}
use bettercpu.Os.OStream.{OStream, open_ostream, put, put_all, close, is_buffered}

nil_of_is_empty : (t : Text) → is_empty t ≡ true → t ≡ []
nil_of_is_empty [] h = refl
nil_of_is_empty (c ∷ t) h = cc

module _ (O : Os) (fs : IsFileSystem O) (p : Text) where
  open fs use {content, content-open, content-write}

  -- The system takes what is written to the file.
  abbrev pub Takes : Type 0
  Takes = (t : Text) (s : O.State) → (O.write_out p t s).0 ≡ true

  -- The stream is good, and `u` is what it has been given: `t` is in the file, and the rest waits.
  record Holds (u : Text) (o : OStream) (s : O.State) : Type 0 where
    good : o.failed ≡ false
    opened : o.is_open ≡ true
    same_path : o.path ≡ p
    t : Text
    in_file : content s p ≡ some t
    together : t ++ o.buffered ≡ u

  put-Holds :
      (u v : Text) (o : OStream) (s : O.State)
      → Takes
      → Holds u o s
      → Holds (u ++ v) (put O v o s).0 (put O v o s).1
  unfolding put
  put-Holds u v o s takes h = elim (Bool-cases (is_buffered (length o.buffered) (length v))) [
    | inl e ↦
        rw (h.good, e)
          (record {
            good = refl;
            opened = h.opened;
            same_path = h.same_path;
            t = h.t;
            in_file = h.in_file;
            together = sym (append_assoc h.t o.buffered v) ∙ ap (λ x. x ++ v) h.together;
          })
    | inr e ↦
        rw (h.good, e, h.same_path, takes (o.buffered ++ v) s)
          (record {
            good = refl;
            opened = h.opened;
            same_path = refl;
            t = h.t ++ (o.buffered ++ v);
            in_file =
                content-write p (o.buffered ++ v) p s
                ∙ rw (takes (o.buffered ++ v) s, eq_text_refl p, h.in_file);
            together =
                append-nil _ ∙ sym (append_assoc h.t o.buffered v) ∙ ap (λ x. x ++ v) h.together;
          })
  ]

  put_all-Holds :
      (u : Text) (ps : List Text) (o : OStream) (s : O.State)
      → Takes
      → Holds u o s
      → Holds (u ++ flatten ps) (put_all O ps o s).0 (put_all O ps o s).1
  unfolding put_all flatten
  put_all-Holds u [] o s takes h = rw append-nil h
  put_all-Holds u (v ∷ ps) o s takes h =
      rw (append_assoc u v (flatten ps)) at
        (put_all-Holds (u ++ v) ps _ _ takes (put-Holds u v o s takes h))

  content-close :
      (u : Text) (o : OStream) (s : O.State)
      → Takes
      → Holds u o s
      → content (close O o s) p ≡ some u
  unfolding close
  content-close u o s takes h = elim (Bool-cases (is_empty o.buffered)) [
    | inl e ↦
        rw (h.opened, e)
          (h.in_file
            ∙ ap some
                (sym (append-nil h.t) ∙ ap (λ x. h.t ++ x) (sym (nil_of_is_empty o.buffered e)))
            ∙ ap some h.together)
    | inr e ↦
        rw (h.opened, e, h.same_path)
          (content-write p o.buffered p s
            ∙ rw (takes o.buffered s, eq_text_refl p, h.in_file) (ap some h.together))
  ]

  -- A stream that is opened, given the texts and closed.
  pub content-put_all :
      (ps : List Text) (s : O.State)
      → Takes
      → (O.open_out p s).0 ≡ true
      → let (o, s₁) = open_ostream O p s in
        let (o', s₂) = put_all O ps o s₁ in
        (o.is_open ≡ true) × (o'.failed ≡ false) × (content (close O o' s₂) p ≡ some (flatten ps))
  unfolding open_ostream
  content-put_all ps s takes opened =
      let o : OStream = (open_ostream O p s).0 in
      let h = put_all-Holds [] ps o (O.open_out p s).1 takes (record {
        good = rw opened;
        opened = opened;
        same_path = refl;
        t = [];
        in_file = content-open p p s ∙ rw (opened, eq_text_refl p);
        together = refl;
      }) in
      (opened, h.good, content-close (flatten ps) _ _ takes h)
