-- ===== src/Base/Results.antt =====
-- C++ exceptions as values: what a function that may throw returns.
use mathlib.Core.Path.{◌≡◌, refl, sym, subst}
use mathlib.Core.Bool.{Bool, true, false}
use mathlib.Core.Option.{Option, none, some}
use mathlib.Core.List.{List, [], ◌∷◌}

-- The exception classes that the program throws, a failed NS_ASSERT or NS_ABORT_MSG_IF, an access
-- that C++ leaves undefined, and the end
-- of a model loop's fuel.
pub data Error : Type 0 where
  invalid_argument runtime_error out_of_range assertion undefined out_of_fuel : Error

-- What a function that may throw returns.
pub data Result {ℓ} (A : Type ℓ) : Type ℓ where
  err : Error → Result A
  ok : A → Result A

-- `if (test) throw e;`
abbrev pub throw_if : Bool → Error → Result (Unit {0})
throw_if true e = err e
throw_if false e = ok tt

abbrev pub or_throw {ℓ} : {A : Type ℓ} → Option A → Error → Result A
or_throw none e = err e
or_throw (some a) e = ok a

infixl 5 ◌>>=◌
abbrev pub ◌>>=◌ {ℓ κ} : {A : Type ℓ} {B : Type κ} → Result A → (A → Result B) → Result B
err e >>= next = err e
ok a >>= next = next a

infixl 5 ◌>>◌
abbrev pub ◌>>◌ {ℓ} : {B : Type ℓ} → Result (Unit {0}) → Result B → Result B
first >> second = first >>= λ _. second

-- A loop that may throw, over a sequence.
unfoldable pub for_each {ℓ κ} :
    {A : Type ℓ} {S : Type κ} → (S → A → Result S) → S → List A → Result S
for_each body s [] = ok s
for_each body s (a ∷ rest) = body s a >>= λ s'. for_each body s' rest

-- The inversion of a successful bind.
pub >>=-eq-ok {ℓ κ} :
    {A : Type ℓ} {B : Type κ} (m : Result A) (next : A → Result B) {b : B}
    → (m >>= next) ≡ ok b
    → (a : A) × (m ≡ ok a) × (next a ≡ ok b)
>>=-eq-ok (err e) next eq = cc
>>=-eq-ok (ok a) next eq = (a, refl, eq)

pub throw_if-eq-ok : (b : Bool) (e : Error) {u : Unit {0}} → throw_if b e ≡ ok u → b ≡ false
throw_if-eq-ok true e h = cc
throw_if-eq-ok false e h = refl

-- A guard that let the program go on.
pub passed {ℓ} :
    {B : Type ℓ} (test : Bool) (e : Error) (rest : Result B) {b : B}
    → (throw_if test e >> rest) ≡ ok b
    → (test ≡ false) × (rest ≡ ok b)
passed true e rest h = cc
passed false e rest h = (refl, h)

pub or_throw-eq-ok {ℓ} :
    {A : Type ℓ} (o : Option A) (e : Error) {a : A} → or_throw o e ≡ ok a → o ≡ some a
or_throw-eq-ok none e h = cc
or_throw-eq-ok (some a) e h = cc

-- What a successful result satisfies; `bind`, `guarded` and `returns` are its rules for a `do`
-- block.
pub record Ensures {ℓ κ} {A : Type ℓ} (P : A → Type κ) (r : Result A) : Type (ℓ ⊔ κ) where
  pub holds : (a : A) → r ≡ ok a → P a

pub bind {ℓ ℓ' κ} :
    {A : Type ℓ} {B : Type ℓ'} {P : B → Type κ} (m : Result A) (f : A → Result B)
    → ((a : A) → m ≡ ok a → Ensures P (f a))
    → Ensures P (m >>= f)
bind (ok a) f h = h a refl
bind (err x) f h = record { holds = λ b e. cc }

pub guarded {ℓ κ} :
    {B : Type ℓ} {P : B → Type κ} (test : Bool) (x : Error) (m : Result B)
    → (test ≡ false → Ensures P m)
    → Ensures P (throw_if test x >> m)
guarded true x m h = record { holds = λ b e. cc }
guarded false x m h = h refl

pub returns {ℓ κ} : {A : Type ℓ} {P : A → Type κ} (a : A) → P a → Ensures P (ok a)
returns {P} a h = record { holds = λ b e. let same : a ≡ b = cc in subst P same h }

-- The invariant of a loop that may throw.
pub for_each-inv {ℓ κ μ} :
    {A : Type ℓ} {S : Type κ} (P : S → Type μ) (body : S → A → Result S)
    → ((s : S) (a : A) → P s → Ensures P (body s a))
    → (s : S) (items : List A) → P s
    → Ensures P (for_each body s items)
unfolding for_each
for_each-inv P body keep s [] h = returns s h
for_each-inv P body keep s (a ∷ rest) h =
    bind (body s a) _ λ s1 e1. for_each-inv P body keep s1 rest ((keep s a h).holds s1 e1)

-- The result is a value, and what it satisfies.
pub record Yields {ℓ κ} {A : Type ℓ} (P : A → Type κ) (r : Result A) : Type (ℓ ⊔ κ) where
  pub value : A
  pub is_ok : r ≡ ok value
  pub holds : P value

pub yields {ℓ κ} : {A : Type ℓ} {P : A → Type κ} (a : A) → P a → Yields P (ok a)
yields a h = record { value = a; is_ok = refl; holds = h }

pub Yields-bind {ℓ ℓ' κ μ} :
    {A : Type ℓ} {B : Type ℓ'} {P : A → Type κ} {Q : B → Type μ} (m : Result A) (f : A → Result B)
    → Yields P m
    → ((a : A) → P a → Yields Q (f a))
    → Yields Q (m >>= f)
Yields-bind {Q} m f h next = subst (λ r. Yields Q (r >>= f)) (sym h.is_ok) (next h.value h.holds)

-- A guard that lets the program go on.
pub Yields-guard {ℓ κ} :
    {B : Type ℓ} {P : B → Type κ} (test : Bool) (x : Error) (m : Result B)
    → test ≡ false
    → Yields P m
    → Yields P (throw_if test x >> m)
Yields-guard true x m e h = cc
Yields-guard false x m e h = h

pub yields-ok {ℓ κ} :
    {A : Type ℓ} {P : A → Type κ} {r : Result A} (a : A) → Yields P r → r ≡ ok a → P a
yields-ok {P} a h e = let is_ok = h.is_ok in let same : h.value ≡ a = cc in subst P same h.holds
