-- ===== src/Log/Level.antt =====
-- `LogLevel` (sylar/base/log.h, log.cpp): the levels, their names and their order.
use Prim.Native.String.{String}
use sylar_study.Prelude.{ℕ, ◌≡◌, refl, Bool, leb, Bytes, codes, same_bytes, if◌then◌else◌}

pub data Level : Type 0 where
  unknown debug info warn error fatal : Level

-- The value of the enumerator.
abbrev pub rank : Level → ℕ
rank unknown = 0
rank debug = 1
rank info = 2
rank warn = 3
rank error = 4
rank fatal = 5

-- `event->level >= level_`.
abbrev pub passes : Level → Level → Bool
passes event limit = leb (rank limit) (rank event)

unfoldable pub to_string : Level → String
to_string debug = "DEBUG"
to_string info = "INFO"
to_string warn = "WARN"
to_string error = "ERROR"
to_string fatal = "FATAL"
to_string unknown = "UNKNOWN"

pub from_string : Bytes → Level
from_string s =
    if same_bytes s (codes "DEBUG")
    then debug
    else if same_bytes s (codes "INFO")
    then info
    else if same_bytes s (codes "WARN")
    then warn
    else if same_bytes s (codes "ERROR")
    then error
    else if same_bytes s (codes "FATAL")
    then fatal
    else unknown

-- A level is read back from its name.
pub from_string-to_string : (l : Level) → from_string (codes (to_string l)) ≡ l
unfolding from_string to_string same_bytes
from_string-to_string unknown = refl
from_string-to_string debug = refl
from_string-to_string info = refl
from_string-to_string warn = refl
from_string-to_string error = refl
from_string-to_string fatal = refl
