-- ===== src/Cmd.antt =====
-- cmd/main.go: the lists and the files that the flags name.
pub mod Lists
pub mod Main
pub mod Startup
pub mod Servers
use api_extension.Prelude.{
  ℕ, zero, suc, Bool, true, false, not, ◌&&◌, List, [], ◌∷◌, if◌then◌else◌, Result, ok, err,
}
use api_extension.Text.{Text, text, ◌==◌}
use api_extension.Text.Strings.{split, trim_space}

-- The loop of splitCommaSeparatedWithOption.
unfoldable pub trim_parts : Bool → List Text → List Text
trim_parts preserve_empty [] = []
trim_parts preserve_empty (part ∷ parts) =
    let rest = trim_parts preserve_empty parts in
    if trim_space part == [] && not preserve_empty then rest else trim_space part ∷ rest

-- splitCommaSeparatedWithOption. A nil slice is the empty list.
unfoldable pub split_comma_separated_with_option : Text → Bool → List Text
unfolding trim_parts
split_comma_separated_with_option value preserve_empty =
    if trim_space value == [] then [] else trim_parts preserve_empty (split value b',')

-- splitCommaSeparated
unfoldable pub split_comma_separated : Text → List Text
unfolding split_comma_separated_with_option
split_comma_separated value = split_comma_separated_with_option value false

-- splitCommaSeparatedPreserveEmpty
unfoldable pub split_comma_separated_preserve_empty : Text → List Text
unfolding split_comma_separated_with_option
split_comma_separated_preserve_empty value = split_comma_separated_with_option value true

-- What os.Stat answers: a file with its size, no such file, or another error.
pub data Stat : Type 0 where
  present : ℕ → Stat
  missing : Stat
  broken : Text → Stat

-- `os.Exit(1)`, by its log message.
pub data Exit : Type 0 where
  unable_to_read_file unable_to_read_info unable_to_start_manager : Exit
  unable_to_set_up_health_check unable_to_set_up_ready_check unable_to_add_api_server : Exit
  problem_running_manager : Exit
  -- The exit of ctrl.GetConfigOrDie.
  no_kube_config : Exit

abbrev checked_stat : Text → Stat → Result Exit Text
checked_stat file (broken e) = err unable_to_read_file
checked_stat file missing = err unable_to_read_info
checked_stat file (present zero) = ok []
checked_stat file (present (suc n)) = ok file

-- The check of one of the three files: an empty file counts as none. `clean` is filepath.Clean for
-- the key and the CA, and the identity for the certificate.
unfoldable pub check_file : (Text → Text) → (Text → Stat) → Text → Result Exit Text
check_file clean stat file = if file == [] then ok [] else checked_stat file (stat (clean file))
