-- ===== src/Command/Ident.antt =====
-- The commands (cmd.go, constants `command*` and `internalCommand*`).

pub data CommandId : Type 0 where
  append change delete edit edit_unconditionally filename global global_interactive help : CommandId
  insert join mark print_list move number print prompt quit quit_unconditionally read : CommandId
  substitute transfer undo inverse_global inverse_global_interactive write write_append put :
      CommandId
  yank scroll comment linenumber undo_move undo_subst no_command : CommandId
