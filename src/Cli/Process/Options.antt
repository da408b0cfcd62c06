-- ===== src/Cli/Process/Options.antt =====
-- cli/src/main.cpp: the options of `bettercpu p`.
use bettercpu.Base.{
  Bool, true, false, ◌||◌, Option, none, some, List, [], ◌∷◌, Text, codes, eq_text, if◌then◌else◌,
}
use Prim.Native.String.{String}

pub record ProcessOptions : Type 0 where
  pub help_requested : Bool
  pub kill_id : Option Text
  pub range_token : Option Text

abbrev pub no_options : ProcessOptions
no_options = record { help_requested = false; kill_id = none; range_token = none }

-- What the next argument is: an option, or the value of the option before it.
pub data Expected : Type 0 where
  an_option : Expected
  id_of : Text → Expected
  range_of : Text → Expected

pub data ParsedOptions : Type 0 where
  parsed : ProcessOptions → ParsedOptions
  missing_id : Text → ParsedOptions
  missing_range : Text → ParsedOptions
  unknown_option : Text → ParsedOptions

unfoldable pub is_either : Text → String → String → Bool
unfolding eq_text
is_either option short long = eq_text option (codes short) || eq_text option (codes long)

abbrev pub is_help : Text → Bool
is_help option = is_either option "-h" "--help"

abbrev pub is_list : Text → Bool
is_list option = is_either option "-l" "--list"

abbrev pub is_kill : Text → Bool
is_kill option = is_either option "-k" "--kill"

abbrev pub is_range : Text → Bool
is_range option = is_either option "-r" "--range"

-- What an option wants, if it is one.
unfoldable pub wanted : Text → Option Expected
wanted option =
    if is_help option
    then some an_option
    else if is_list option
    then some an_option
    else if is_kill option
    then some (id_of option)
    else if is_range option
    then some (range_of option)
    else none

unfoldable pub with_option : Text → ProcessOptions → ProcessOptions
with_option option o = if is_help option then record o { help_requested = true } else o

-- The loop over the arguments behind `p`.
unfoldable pub parse_options : Expected → List Text → ProcessOptions → ParsedOptions
unfolding wanted with_option is_either
parse_options an_option [] o = parsed o
parse_options (id_of option) [] o = missing_id option
parse_options (range_of option) [] o = missing_range option
parse_options an_option (option ∷ more) o = elim (wanted option) [
  | none ↦ unknown_option option
  | some next ↦ parse_options next more (with_option option o)
]
parse_options (id_of option) (id ∷ more) o =
    parse_options an_option more (record o { kill_id = some id })
parse_options (range_of option) (token ∷ more) o =
    parse_options an_option more (record o { range_token = some token })
