-- ===== src/Std/Result.antt =====
-- How a call ends: with a value, with an exception, or with the end of the process.
use bettercpu.Base.{ℕ, List, [], ◌∷◌}

pub data Exception : Type 0 where
  invalid_argument out_of_range filesystem_error : Exception

-- `exited n` is `_exit(n)`.
pub data Result (A : Type 0) : Type 0 where
  ok : A → Result A
  threw : Exception → Result A
  exited : ℕ → Result A

-- An exception or an exit skips what follows.
abbrev pub bind : {A B : Type 0} → Result A → (A → Result B) → Result B
bind (ok a) f = f a
bind (threw e) f = threw e
bind (exited n) f = exited n

-- A computation over a state `S`: the state outlives an exception.
abbrev pub M : Type 0 → Type 0 → Type 0
M S A = S → Result A × S

abbrev pub continue : {S A B : Type 0} → (A → M S B) → Result A × S → Result B × S
continue f (ok a, s) = f a s
continue f (threw e, s) = (threw e, s)
continue f (exited n, s) = (exited n, s)

infixl 5 ◌>>=◌ ◌>>◌
abbrev pub ◌>>=◌ : {S A B : Type 0} → M S A → (A → M S B) → M S B
◌>>=◌ m f s = continue f (m s)

abbrev pub ◌>>◌ : {S A B : Type 0} → M S A → M S B → M S B
◌>>◌ m k s = continue (λ _. k) (m s)

abbrev pub return : {S A : Type 0} → A → M S A
return a s = (ok a, s)

-- A call with no side effect that may throw.
abbrev pub lift : {S A : Type 0} → Result A → M S A
lift r s = (r, s)

-- A call of the operating system, which throws nothing.
abbrev pub call : {S A : Type 0} → (S → A × S) → M S A
call f s = let (a, t) = f s in (ok a, t)

-- `f` on each item in turn, until one throws.
unfoldable pub traverse : {A B : Type 0} → (A → Result B) → List A → Result (List B)
traverse f [] = ok []
traverse f (a ∷ more) = bind (f a) (λ b. bind (traverse f more) (λ bs. ok (b ∷ bs)))

-- `P` holds of the value, if there is one.
abbrev pub Ensures : {A : Type 0} → (A → Type 0) → Result A → Type 0
Ensures P (ok a) = P a
Ensures P (threw e) = Unit
Ensures P (exited n) = Unit

pub continue-Ensures :
    {S A B : Type 0} (P : A → Type 0) (Q : B → Type 0) (r : Result A × S) (f : A → M S B)
    → Ensures P r.0
    → ((a : A) (s : S) → P a → Ensures Q (f a s).0)
    → Ensures Q (continue f r).0
continue-Ensures P Q (ok a, s) f h k = k a s h
continue-Ensures P Q (threw e, s) f h k = tt
continue-Ensures P Q (exited n, s) f h k = tt

-- Nothing is known of a value.
pub result-Ensures : {A : Type 0} (r : Result A) → Ensures (λ _. Unit {0}) r
result-Ensures (ok a) = tt
result-Ensures (threw e) = tt
result-Ensures (exited n) = tt
