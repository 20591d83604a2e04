-- ===== src/Security/Otp.antt =====
-- `OtpService` of src/fastauth/security/otp.py. The random digits are the system's, and a parameter.
use fastauth.Prelude.{ℕ, zero, suc, ◌+◌, String}
use fastauth.Domain.Errors.{ok, Exec}
use fastauth.Runtime.World.{External, World, TokenPair}
use Prim.Native.String.{◌++◌}

-- What `randint(0, 9)` draws.
pub data Digit : Type 0 where
  d0 d1 d2 d3 d4 d5 d6 d7 d8 d9 : Digit

-- `str(n)`
unfoldable pub digit_text : Digit → String
digit_text Digit.d0 = "0"
digit_text Digit.d1 = "1"
digit_text Digit.d2 = "2"
digit_text Digit.d3 = "3"
digit_text Digit.d4 = "4"
digit_text Digit.d5 = "5"
digit_text Digit.d6 = "6"
digit_text Digit.d7 = "7"
digit_text Digit.d8 = "8"
digit_text Digit.d9 = "9"

-- So many digits, from the drawn ones that follow the first `from`.
unfoldable pub digits : (ℕ → Digit) → ℕ → ℕ → String
unfolding digit_text
digits random_digit from zero = ""
digits random_digit from (suc length) =
    digit_text (random_digit from) ++ digits random_digit (suc from) length

unfoldable pub generate_pair : External → (ℕ → Digit) → ℕ → Exec World TokenPair
unfolding digits
generate_pair external random_digit length w =
    let plain = digits random_digit w.secrets length in
    (
      ok (record { plain = plain; hashed = external.sha256 plain }),
      record w { secrets = w.secrets + length },
    )
