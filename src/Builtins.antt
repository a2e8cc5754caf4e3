-- ===== src/Builtins.antt =====
-- The built-in conversions that the program calls on JSON values: `int(v)` (`none` where it
-- raises), `str(v)` and `str.lower`. They are Python's own, so they are a parameter.
use incident_triage.Base.{ℕ, String, Option, none, some, Value, flag, int, text, false, ◌≡◌, refl}

pub record Builtins : Type 0 where
  pub int_of : Value → Option ℕ
  pub str_of : Value → String
  pub lower : String → String

-- What the program relies on.
pub record IsFaithful (py : Builtins) : Type 0 where
  pub int_of_int : (n : ℕ) → py.int_of (int n) ≡ some n
  pub str_of_text : (s : String) → py.str_of (text s) ≡ s
  pub lower_of_false : py.lower (py.str_of (flag false)) ≡ "false"

-- A version that knows the values that stand in the examples.
abbrev pub sample_int : Value → Option ℕ
sample_int (int n) = some n
sample_int _ = none

abbrev pub sample_str : Value → String
sample_str (text s) = s
sample_str (flag false) = "False"
sample_str _ = "None"

abbrev pub sample_lower : String → String
sample_lower s = "false"

abbrev pub sample_builtins : Builtins
sample_builtins = record { int_of = sample_int; str_of = sample_str; lower = sample_lower }

pub sample_builtins-IsFaithful : IsFaithful sample_builtins
sample_builtins-IsFaithful = record {
  int_of_int = λ n. refl;
  str_of_text = λ s. refl;
  lower_of_false = refl;
}
