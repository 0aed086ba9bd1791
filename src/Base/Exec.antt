-- ===== src/Base/Exec.antt =====
-- Methods that mutate shared state and may fail. What was written before a failure stays written,
-- so the state comes back beside the error too.
use mathlib.Core.Path.{◌≡◌, refl}
use mathlib.Core.Option.{Option, none, some}

pub data Result (E A : Type 0) : Type 0 where
  ok : A → Result E A
  err : E → Result E A

-- `Option::ok_or`
abbrev pub ok_or : {E A : Type 0} → Option A → E → Result E A
ok_or none e = err e
ok_or (some a) e = ok a

-- `Result::map_err`
abbrev pub map_err : {E F A : Type 0} → (E → F) → Result E A → Result F A
map_err f (ok a) = ok a
map_err f (err e) = err (f e)

abbrev pub Exec : Type 0 → Type 0 → Type 0 → Type 0
Exec S E A = S → Result E A × S

abbrev pub pure : {S E A : Type 0} → A → Exec S E A
pure a s = (ok a, s)

abbrev pub raise : {S E A : Type 0} → E → Exec S E A
raise e s = (err e, s)

abbrev pub lift : {S E A : Type 0} → Result E A → Exec S E A
lift r s = (r, s)

abbrev pub gets : {S E A : Type 0} → (S → A) → Exec S E A
gets f s = (ok (f s), s)

abbrev pub modify : {S E : Type 0} → (S → S) → Exec S E (Unit {0})
modify f s = (ok tt, f s)

abbrev pub continue : {S E A B : Type 0} → Result E A × S → (A → Exec S E B) → Result E B × S
continue (ok a, s) f = f a s
continue (err e, s) f = (err e, s)

infixl 5 ◌>>=◌ ◌>>◌
abbrev pub ◌>>=◌ : {S E A B : Type 0} → Exec S E A → (A → Exec S E B) → Exec S E B
◌>>=◌ m f s = continue (m s) f

abbrev pub ◌>>◌ : {S E A B : Type 0} → Exec S E A → Exec S E B → Exec S E B
◌>>◌ m k s = continue (m s) (λ _. k)

-- Inversion of a step that went well.
pub continue-eq-ok :
    {S E A B : Type 0} (r : Result E A × S) (f : A → Exec S E B) (c : B) (t : S)
    → continue r f ≡ (ok c, t)
    → (a : A) × (s : S) × (r ≡ (ok a, s)) × (f a s ≡ (ok c, t))
continue-eq-ok (ok a, s) f c t h = (a, s, refl, h)
continue-eq-ok (err e, s) f c t h = cc
