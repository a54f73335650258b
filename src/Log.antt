-- ===== src/Log.antt =====
-- src/lopack/Log.h: where a line goes, by its level. `debug` says whether DEBUG is defined.
use lopack.Prelude.{Bool, true, false, List, [], ◌∷◌, ◌++◌, ◌≡◌, refl}
use lopack.Prelude.Text.{Text, codes}

pub data Level : Type 0 where
  normal debug warn error : Level

pub data Channel : Type 0 where
  out err : Channel

-- What is written, in order.
abbrev pub Console : Type 0
Console = List (Channel × Text)

-- The destructor prints the line.
unfoldable pub print_line : (debug : Bool) → Level → Text → Console
print_line d Level.normal line = (out, line) ∷ []
print_line true Level.debug line = (out, codes "Debug: " ++ line) ∷ []
print_line false Level.debug line = []
print_line d Level.warn line = (err, codes "Warn: " ++ line) ∷ []
print_line d Level.error line = (err, codes "Error: " ++ line) ∷ []

-- The members; texts are streamed into the line, and std::endl ends it.
pub record Log : Type 0 where
  level : Level
  line : Text

make_log : Level → Log
make_log l = record { level = l; line = [] }

put : Text → Log → Log
put t l = record l { line = l.line ++ t }

put_end : Log → Log
put_end l = record l { line = l.line ++ 10 ∷ [] }

destroy : (debug : Bool) → Log → Console
unfolding print_line
destroy d l = print_line d l.level l.line

-- LOG_WARN and LOG_ERROR with `std::endl`
abbrev pub warning : Text → Channel × Text
warning line = (err, codes "Warn: " ++ line ++ 10 ∷ [])

abbrev pub error_line : Text → Channel × Text
error_line line = (err, codes "Error: " ++ line ++ 10 ∷ [])

-- A text and std::endl streamed into a temporary Log of a level come out as one line there.
put-warning :
    (d : Bool) (t : Text) → destroy d (put_end (put t (make_log Level.warn))) ≡ warning t ∷ []
unfolding destroy put_end put make_log
put-warning d t = refl

put-error_line :
    (d : Bool) (t : Text) → destroy d (put_end (put t (make_log Level.error))) ≡ error_line t ∷ []
unfolding destroy put_end put make_log
put-error_line d t = refl
