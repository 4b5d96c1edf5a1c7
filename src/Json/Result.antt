-- ===== src/Json/Result.antt =====
-- How a call of the parser or of the configuration reader ends.
use ss_logger_cpp.Prelude.{◌≡◌, refl, ap}

-- `std::runtime_error`, `std::out_of_range`, `std::invalid_argument`.
pub data Error : Type 0 where
  runtime_error out_of_range invalid_argument : Error

-- `undefined` is undefined behaviour, the read of an uninitialised member. `timeout` says that
-- the fuel of a loop is used up.
pub data Result {ℓ} (A : Type ℓ) : Type ℓ where
  undefined timeout : Result A
  throws : Error → Result A
  ok : A → Result A

-- What follows a call is run on its value only.
abbrev pub ◌>>=◌ {ℓ₁ ℓ₂} :
    {V : Type ℓ₁} {W : Type ℓ₂} (call : Result V) (continue : V → Result W) → Result W
undefined >>= continue = undefined
timeout >>= continue = timeout
throws error >>= continue = throws error
ok value >>= continue = continue value

infixl 5 ◌>>=◌
-- A chain that ends with a value has a first call that does.
pub >>=-eq-ok {ℓ₁ ℓ₂} :
    {V : Type ℓ₁} {W : Type ℓ₂} (call : Result V) (continue : V → Result W) {end : W}
    → ◌≡◌ {A = Result W} (call >>= continue) (ok end)
    → (value : V) × (call ≡ ok value) × (continue value ≡ ok end)
>>=-eq-ok undefined continue ends = cc
>>=-eq-ok timeout continue ends = cc
>>=-eq-ok (throws error) continue ends = cc
>>=-eq-ok (ok value) continue ends = (value, refl, ends)

pub >>=-cong {ℓ κ} :
    {A : Type ℓ} {B : Type κ} (m n : Result A) (f g : A → Result B)
    → m ≡ n
    → ((a : A) → m ≡ ok a → f a ≡ g a)
    → (m >>= f) ≡ (n >>= g)
>>=-cong m n f g e h = rw (← e) (same m h)
  where
    same : (r : Result _) → ((a : _) → r ≡ ok a → f a ≡ g a) → (r >>= f) ≡ (r >>= g)
    same (ok a) h = h a refl
    same (throws e) h = refl
    same undefined h = refl
    same timeout h = refl

pub >>=-assoc {ℓ κ ι} :
    {A : Type ℓ} {B : Type κ} {C : Type ι} (m : Result A) (f : A → Result B) (g : B → Result C)
    → ((m >>= f) >>= g) ≡ (m >>= λ a. f a >>= g)
>>=-assoc (ok a) f g = refl
>>=-assoc (throws e) f g = refl
>>=-assoc undefined f g = refl
>>=-assoc timeout f g = refl

-- Two calls with one end have one value.
pub ok_inj {ℓ} : {A : Type ℓ} (a b : A) → ok a ≡ ok b → a ≡ b
ok_inj {A} a b h = ap value h
  where
    value : Result A → A
    value (ok c) = c
    value (throws e) = a
    value timeout = a
    value undefined = a
