-- ===== src/Result.antt =====
-- Fallible code, and fallible code over the state of the host.
use dockerwall.Base.{◌≡◌, refl, Option, none, some}
use dockerwall.Text.{Text}

-- `Result<T, Box<dyn Error>>`: the error is its message.
pub data Result {ℓ} (A : Type ℓ) : Type ℓ where
  ok : A → Result A
  err : Text → Result A

-- A program over a host in state `W`: what it did to the host stays done when it fails.
abbrev pub Prog : Type 0 → Type 0 → Type 0
Prog W A = W → Result A × W

abbrev pub pure : {W A : Type 0} → A → Prog W A
pure a w = (ok a, w)

abbrev pub fail : {W A : Type 0} → Text → Prog W A
fail message w = (err message, w)

-- The rest of a program behind the result of its first step.
abbrev pub continue_with : {W A B : Type 0} → (A → Prog W B) → Result A × W → Result B × W
continue_with f (ok a, w) = f a w
continue_with f (err message, w) = (err message, w)

infixl 5 ◌>>=◌ ◌>>◌
abbrev pub ◌>>=◌ : {W A B : Type 0} → Prog W A → (A → Prog W B) → Prog W B
◌>>=◌ m f w = continue_with f (m w)

abbrev pub ◌>>◌ : {W B : Type 0} → Prog W (Unit {0}) → Prog W B → Prog W B
m >> k = m >>= λ _. k

-- `let _ = …`: a result that is thrown away.
abbrev pub ignore_result : {W A : Type 0} → Prog W A → Prog W (Unit {0})
ignore_result m w = (ok tt, (m w).1)

-- `?` on an `Option` with a message.
abbrev pub or_fail : {W A : Type 0} → Text → Option A → Prog W A
or_fail message none = fail message
or_fail message (some a) = pure a

-- A program with a loop on fuel: none where the fuel is not enough.
abbrev pub Loop : Type 0 → Type 0 → Type 0
Loop W A = W → Option (Result A × W)

abbrev pub once : {W A : Type 0} → Prog W A → Loop W A
once m w = some (m w)

abbrev pub continue_loop :
    {W A B : Type 0} → (A → Loop W B) → Option (Result A × W) → Option (Result B × W)
continue_loop f none = none
continue_loop f (some (ok a, w)) = f a w
continue_loop f (some (err message, w)) = some (err message, w)

infixl 5 ◌>>?◌
abbrev pub ◌>>?◌ : {W A B : Type 0} → Loop W A → (A → Loop W B) → Loop W B
◌>>?◌ m f w = continue_loop f (m w)

-- A successful chain: both parts succeed, one behind the other.
pub >>=-eq-ok :
    {W A B : Type 0} (m : Prog W A) (f : A → Prog W B) (w : W) {b : B} {w' : W}
    → (m >>= f) w ≡ (ok b, w')
    → (a : A) × (v : W) × (m w ≡ (ok a, v)) × (f a v ≡ (ok b, w'))
>>=-eq-ok {W} {A} {B} m f w {b} {w'} h = split (m w) refl
  where
    split :
        (t : Result A × W) → m w ≡ t → (a : A) × (v : W) × (m w ≡ (ok a, v)) × (f a v ≡ (ok b, w'))
    split (ok a, v) e = (a, v, e, rw e at h)
    split (err message, v) e = absurd (cc)

pub >>?-eq-ok :
    {W A B : Type 0} (m : Loop W A) (f : A → Loop W B) (w : W) {b : B} {w' : W}
    → (m >>? f) w ≡ some (ok b, w')
    → (a : A) × (v : W) × (m w ≡ some (ok a, v)) × (f a v ≡ some (ok b, w'))
>>?-eq-ok {W} {A} {B} m f w {b} {w'} h = split (m w) refl
  where
    split :
        (o : Option (Result A × W))
        → m w ≡ o
        → (a : A) × (v : W) × (m w ≡ some (ok a, v)) × (f a v ≡ some (ok b, w'))
    split none e = absurd (cc)
    split (some (ok a, v)) e = (a, v, e, rw e at h)
    split (some (err message, v)) e = absurd (cc)
