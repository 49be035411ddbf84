-- ===== src/Variables.antt =====
-- `process.env`: the variables by their names.
use eps_dapp.Base.{Bool, Option, or_else, [], Text, codes, text_eq}
use Prim.Native.String.{String}

abbrev pub Variables : Type 0
Variables = Text → Option Text

-- A variable, where a missing one is treated as an empty one: both are falsy.
abbrev pub text_variable : Variables → String → Text
text_variable vars name = or_else (vars (codes name)) []

-- `process.env[name] === value`, for a value that is not empty.
unfoldable pub is_set_to : Variables → String → String → Bool
unfolding text_eq
is_set_to vars name value = text_eq (text_variable vars name) (codes value)
