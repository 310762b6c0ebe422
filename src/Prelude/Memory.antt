-- ===== src/Prelude/Memory.antt =====
-- The C memory that the program copies: byte arrays of a fixed size, and C strings in them.
-- `none` stands for a memory fault: an access outside a buffer, or a size that its type cannot hold.
use Prim.Native.Nat.{ℕ, ◌≤◌, ◌<◌}
use Prim.Native.Char.{code}
use Prim.Native.String.{String}
use mathlib.Core.Path.{◌≡◌, refl}
use mathlib.Core.Logic.{◌≢◌}
use mathlib.Core.Bool.{◌||◌}
use mathlib.Core.Option.{Option, none, some}
use mathlib.Core.List.{List, [], ◌∷◌, ◌++◌}
use native.Mathlib.Omega.{arith}
use wineing.Prelude.Tests.{ltb, ◌==◌, if◌then◌else◌}
use wineing.Prelude.Lists.{
  length, take, drop, length-append, length-take, length-drop, take-append_take,
}

abbrev pub Bytes : Type 0
Bytes = List ℕ

-- The bytes of an ASCII literal.
abbrev pub codes : String → Bytes
codes String.[] = []
codes (String.◌∷◌ c s) = code c ∷ codes s

infixl 5 ◌>>=◌
abbrev pub ◌>>=◌ {ℓ κ} : {A : Type ℓ} {B : Type κ} → Option A → (A → Option B) → Option B
none >>= f = none
some a >>= f = f a

pub >>=-eq-some {ℓ κ} :
    {A : Type ℓ} {B : Type κ} (m : Option A) (f : A → Option B) {b : B}
    → (m >>= f) ≡ some b
    → (a : A) × (m ≡ some a) × (f a ≡ some b)
>>=-eq-some none f h = cc
>>=-eq-some (some a) f h = (a, refl, h)

-- `memcpy(dst, src, n)`: the new contents of `dst`.
unfoldable pub memcpy : Bytes → Bytes → ℕ → Option Bytes
memcpy dst src n =
    if ltb (length dst) n || ltb (length src) n then none else some (take n src ++ drop n dst)

pub memcpy-fits :
    (dst src : Bytes) (n : ℕ)
    → n ≤ length dst
    → n ≤ length src
    → memcpy dst src n ≡ some (take n src ++ drop n dst)
unfolding memcpy
memcpy-fits dst src n h k = ground arith

pub memcpy-overflow : (dst src : Bytes) (n : ℕ) → length dst < n → memcpy dst src n ≡ none
unfolding memcpy
memcpy-overflow dst src n h = ground arith

pub length-memcpy :
    (dst src : Bytes) (n : ℕ) {out : Bytes} → memcpy dst src n ≡ some out → length out ≡ length dst
unfolding memcpy
length-memcpy dst src n h =
    ground (arith, length-append (take n src) (drop n dst), length-take n src, length-drop n dst)

-- A C string as it is passed: its characters and the NUL byte.
abbrev pub c_str : Bytes → Bytes
c_str s = s ++ 0 ∷ []

-- What a reader of a `char *` sees: the bytes before the first NUL.
unfoldable pub c_string : Bytes → Bytes
c_string [] = []
c_string (b ∷ bs) = if b == 0 then [] else b ∷ c_string bs

-- A text with no NUL byte inside.
abbrev pub NoNul : Bytes → Type 0
NoNul [] = Unit {0}
NoNul (b ∷ bs) = (b ≢ 0) × NoNul bs

pub c_string-c_str : (s rest : Bytes) → NoNul s → c_string (c_str s ++ rest) ≡ s
unfolding c_string
c_string-c_str [] rest h = refl
c_string-c_str (b ∷ bs) rest h = ground (arith, c_string-c_str bs rest h.1)

pub memcpy-some :
    (dst src : Bytes) (n : ℕ) {out : Bytes} → memcpy dst src n ≡ some out → take n out ≡ take n src
unfolding memcpy
memcpy-some dst src n h = ground (arith, take-append_take n src (drop n dst))
