-- ===== src/Control/Tape.antt =====
-- impl/all/core/wineing.cc, `cchan_in_thread`: what a start request leaves in the shared buffer.
use mathlib.Core.List.{append-nil}
use wineing.Prelude.{
  ℕ, ◌+◌, ◌≡◌, sym, ap, ◌∙◌, [], ◌∷◌, ◌++◌, arith, length, drop, take-prefix, length-append,
}
use wineing.Prelude.Memory.{Bytes, c_str, c_string, c_string-c_str, NoNul}
use wineing.Ctrl.{WCtrl}
use wineing.Ctrl.Copy.{copied}
use wineing.Control.{InState}
use wineing.Control.Owner.{published, with_tape}

-- The control block's data is the C string `path`, with its NUL byte.
pub record Carries (path : Bytes) (c : WCtrl) : Type 0 where
  pub rest : Bytes
  pub text : c.buffer ≡ c_str path ++ rest
  pub counted : c.size ≡ length (c_str path)

-- So a reader of the C string finds the path.
pub c_string-Carries :
    {path : Bytes} {c : WCtrl} → Carries path c → NoNul path → c_string c.buffer ≡ path
c_string-Carries {path} k h = ap c_string k.text ∙ c_string-c_str path k.rest h

-- A copy carries the path on.
pub copied-Carries : (path : Bytes) (c d : WCtrl) → Carries path c → Carries path (copied c d)
unfolding copied
copied-Carries path c d k = record {
  rest = drop c.size d.buffer;
  text =
      ap (λ x. x ++ drop c.size d.buffer)
        (take-prefix c.size c.buffer (c_str path) k.rest k.counted k.text);
  counted = k.counted;
}

pub with_tape-Carries : (path : Bytes) (s : InState) → Carries path (with_tape path s).t_data
unfolding with_tape
with_tape-Carries path s = record {
  rest = drop (length path + 1) s.t_data.buffer;
  text =
      ap (λ x. x ++ drop (length path + 1) s.t_data.buffer)
        (take-prefix (length path + 1) (c_str path) (c_str path) []
          (omega (arith, length-append path (0 ∷ []))) (sym (append-nil (c_str path))));
  counted = omega (arith, length-append path (0 ∷ []));
}

pub published-Carries :
    (path : Bytes) (c : ℕ) (s : InState)
    → Carries path s.t_data
    → Carries path (published c s).shared.value
unfolding published
published-Carries path c s k =
    copied-Carries path (record s.t_data { cmd = c }) s.shared.value
      (record { rest = k.rest; text = k.text; counted = k.counted })
