-- ===== src/Singbox/StartError.antt =====
-- core/singboxcore/errors.go: how an error of the box's start is read as a port in use.
use proxy_hub.Prelude.{
  ℕ, ◌+◌, ◌-◌, ◌*◌, Bool, false, ◌||◌, String, Option, none, some, List, [], ◌∷◌, ltb, ◌==◌,
  if◌then◌else◌,
}
use proxy_hub.Prelude.Text.{codes, contains_lower}
use proxy_hub.Singbox.Errors.{Error, port_in_use, external}

-- The error of a start: what errors.As finds in it (the message of the error inside a
-- net.OpError), whether errors.Is finds os.ErrExist, and its message.
pub record StartError : Type 0 where
  pub op_message : Option String
  pub is_exist : Bool
  pub message : String

abbrev pub says_in_use : String → Bool
says_in_use m =
    contains_lower m "address already in use"
    || contains_lower m "only one usage of each socket address"
    || contains_lower m "bind: an attempt was made to access a socket"

abbrev pub op_says_in_use : Option String → Bool
op_says_in_use none = false
op_says_in_use (some m) = says_in_use m

unfoldable pub is_address_in_use : StartError → Bool
is_address_in_use e = op_says_in_use e.op_message || e.is_exist || says_in_use e.message

-- The digits at the front, after what has been read.
unfoldable pub leading_digits : ℕ → List ℕ → ℕ
leading_digits port [] = port
leading_digits port (c ∷ cs) =
    let rest = leading_digits (port * 10 + (c - b'0')) cs in
    if ltb c b'0' || ltb b'9' c then port else rest

-- What follows the last colon.
unfoldable pub after_last_colon : List ℕ → Option (List ℕ)
after_last_colon [] = none
after_last_colon (c ∷ cs) = elim (after_last_colon cs) [
  | some rest ↦ some rest
  | none ↦ if c == b':' then some cs else none
]

abbrev pub port_of : Option (List ℕ) → ℕ
unfolding leading_digits
port_of none = 0
port_of (some cs) = leading_digits 0 cs

-- portFromListenError. A port is unbounded here; an int in the source wraps after nineteen digits.
unfoldable pub port_from_listen_error : StartError → ℕ
unfolding codes after_last_colon leading_digits
port_from_listen_error e = port_of (after_last_colon (codes e.message))

-- NormalizeStartError, of an error that is not nil.
unfoldable pub normalize_start_error : StartError → Error
unfolding port_from_listen_error is_address_in_use
normalize_start_error e =
    let port = port_from_listen_error e in
    if ltb 0 port || is_address_in_use e then port_in_use port else external e.message
