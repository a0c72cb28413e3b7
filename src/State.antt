-- ===== src/State.antt =====
-- The state of the editor (state.go), and the world that it runs in: standard output, standard
-- input, files.
use go_red.Base.{ℕ, Bool, true, false, Option, none, List, [], ◌∷◌, if◌then◌else◌, ℤ}
use go_red.Address.{new_absolute_address}
use go_red.Buffer.{Line}
use go_red.Command.{Command}
use go_red.Command.Ident.{CommandId}
use go_red.Mark.{Marks}
use go_red.Range.{AddressRange, comma}
use go_red.Text.{Text, codes}

-- An element of the undo list of a substitution: a change command and the line it puts back.
pub record Change : Type 0 where
  pub cmd : Command
  pub text : List Line
  pub original_cmd : Command

-- The list that an undo carries: nil, lines, or the commands of a substitution.
pub data UndoText : Type 0 where
  no_text : UndoText
  lines : List Line → UndoText
  changes : List Change → UndoText

pub record Undo : Type 0 where
  pub cmd : Command
  pub text : UndoText
  pub original_cmd : Command

-- The flag for debug output is left out, and with it that output.
pub record ProgramFlags : Type 0 where
  pub default_filename : Text
  pub window_size : ℕ
  pub show_memory : Bool
  pub prompt : Text
  pub show_prompt : Bool

-- `dotline` is the index of the element at the time it was set. The program reads it only right
-- after it has set it. The lists other than the buffer are never changed in place.
pub record State : Type 0 where
  pub buffer : List Line
  pub cut_buffer : List Line
  pub dotline : Option ℕ
  pub marks : Marks
  pub line_nbr : ℕ
  pub last_subst_re : Option Text
  pub last_subst_replacement : Text
  pub last_subst_suffixes : Text
  pub last_search_re : Option Text
  pub undo : List Undo
  pub processing_undo : Bool
  pub changed_since_last_write : Bool
  pub flags : ProgramFlags
  pub open flags use *

abbrev pub new_state : State
new_state = record {
  buffer = [];
  cut_buffer = [];
  dotline = none;
  marks = [];
  line_nbr = 0;
  last_subst_re = none;
  last_subst_replacement = [];
  last_subst_suffixes = [];
  last_search_re = none;
  undo = [];
  processing_undo = false;
  changed_since_last_write = false;
  flags = record {
    default_filename = [];
    window_size = 0;
    show_memory = false;
    prompt = codes ":";
    show_prompt = false;
  };
}

-- `state.changedSinceLastWrite = true`
abbrev pub set_changed : State → State
set_changed s = record s { changed_since_last_write = true }

abbrev pub absolute_range : ℤ → ℤ → AddressRange
absolute_range start end = record {
  start = new_absolute_address start;
  end = new_absolute_address end;
  separator = comma;
}

abbrev pub undo_command : ℤ → ℤ → CommandId → UndoText → Command → Undo
undo_command start end id text original = record {
  cmd = record {
    addr_range = absolute_range start end;
    resolved = none;
    cmd = id;
    rest_of_cmd = [];
  };
  text = text;
  original_cmd = original;
}

-- `addUndo`
unfoldable pub add_undo : ℤ → ℤ → CommandId → UndoText → Command → State → State
add_undo start end id text original s =
    if s.processing_undo
    then s
    else record s { undo = undo_command start end id text original ∷ s.undo }

-- Standard output is what has been printed, the last first. Standard input is the list of the
-- chunks that single reads deliver.
pub record World : Type 0 where
  pub state : State
  pub open state use *
  pub out : List Text
  pub stdin : List Text
  pub files : Text → Option Text
