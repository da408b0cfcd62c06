-- ===== src/Cli/Colors.antt =====
-- core/include/bettercpu/colors.hpp, and the messages in color.
use bettercpu.Base.{◌∷◌, ◌++◌, Text, codes}
use Prim.Native.String.{String}

-- An escape sequence of the terminal.
abbrev escape : String → Text
escape s = 27 ∷ codes s

pub clr_reset : Text
clr_reset = escape "[0m"

pub clr_bold : Text
clr_bold = escape "[1m"

pub clr_yellow : Text
clr_yellow = escape "[33m"

pub clr_cyan : Text
clr_cyan = escape "[36m"

pub clr_white : Text
clr_white = escape "[37m"

pub clr_lred : Text
clr_lred = escape "[91m"

pub clr_lgreen : Text
clr_lgreen = escape "[92m"

pub clr_lyellow : Text
clr_lyellow = escape "[93m"

pub clr_lcyan : Text
clr_lcyan = escape "[96m"

pub clr_lwhite : Text
clr_lwhite = escape "[97m"

-- A text in a color, with the color taken off behind it.
pub colored : Text → Text → Text
colored color text = color ++ (text ++ clr_reset)
