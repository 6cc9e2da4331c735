-- ===== src/Tasks/Checked.antt =====
-- What a handler of daemon/src/api/unified-tasks.ts has checked so far: a value, or the status code
-- of the early return.
use kithkit.Base.{ℕ, Bool, true, false, ◌≡◌, refl}

pub data Checked (A : Type 0) : Type 0 where
  ok : A → Checked A
  fail : ℕ → Checked A

infixl 5 ◌>>=◌ ◌>>◌
abbrev pub ◌>>=◌ : {A B : Type 0} → Checked A → (A → Checked B) → Checked B
ok a >>= f = f a
fail code >>= f = fail code

abbrev pub ◌>>◌ : {B : Type 0} → Checked (Unit {0}) → Checked B → Checked B
m >> k = m >>= λ _. k

abbrev pub deny_if : Bool → ℕ → Checked (Unit {0})
deny_if true code = fail code
deny_if false code = ok tt

pub bind_cases {ℓ} :
    {A B : Type 0} (Q : Checked B → Type ℓ) (m : Checked A) (f : A → Checked B)
    → ((code : ℕ) → Q (fail code))
    → ((a : A) → m ≡ ok a → Q (f a))
    → Q (m >>= f)
bind_cases Q (ok a) f refusal rest = rest a refl
bind_cases Q (fail code) f refusal rest = refusal code

-- A check that has passed.
pub deny_if-eq-ok :
    {B : Type 0} (b : Bool) (code : ℕ) (k : Checked B) {x : B}
    → (deny_if b code >> k) ≡ ok x
    → (b ≡ false) × (k ≡ ok x)
deny_if-eq-ok true code k h = cc
deny_if-eq-ok false code k h = (refl, h)

pub deny_if-ok : (b : Bool) (code : ℕ) → deny_if b code ≡ ok tt → b ≡ false
deny_if-ok true code h = cc
deny_if-ok false code h = refl

-- Both parts of a chain that has succeeded.
pub >>=-eq-ok :
    {A B : Type 0} (m : Checked A) (f : A → Checked B) {b : B}
    → (m >>= f) ≡ ok b
    → (a : A) × ((m ≡ ok a) × (f a ≡ ok b))
>>=-eq-ok (ok a) f h = (a, (refl, h))
>>=-eq-ok (fail code) f h = cc

pub ok_injective : {A : Type 0} {x y : A} → ok x ≡ ok y → x ≡ y
ok_injective h = cc
