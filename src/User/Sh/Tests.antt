-- ===== src/User/Sh/Tests.antt =====
-- Runs of the shell's parser.
use northos.Prelude.{◌≡◌, ◌≢◌, refl, [], ◌∷◌, arith}
use northos.User.Sh.{
  Text, Cmd, ok, panics, stuck, parsecmd, exec, redir, pipe, list, back, missing_paren,
}
use northos.User.Sh.{
  redirs_loop, args_loop, parse_simple, backs_loop, parseline, lex, gettoken, skip_spaces,
  span_word, peek, with_args,
}
use northos.User.Sh.Grammar
use northos.User.Sh.Grammar.{Reads, line, pipeline}
use northos.User.Sh.Total.{parsecmd_ends}
use northos.User.Sh.Lines.{parsecmd-Reads}

-- l|w >f, and the end of the line
abbrev typed : Text
typed = b'l' ∷ b'|' ∷ b'w' ∷ b' ' ∷ b'>' ∷ b'f' ∷ b'\n' ∷ []

abbrev typed_cmd : Cmd
typed_cmd = pipe (exec ((b'l' ∷ []) ∷ [])) (redir (exec ((b'w' ∷ []) ∷ [])) (b'f' ∷ []) 513 1)

typed_parsed : parsecmd typed ≡ ok typed_cmd
unfolding parsecmd parseline parse_simple redirs_loop args_loop backs_loop lex gettoken skip_spaces
    span_word peek with_args
typed_parsed = refl

-- (l&;w
unclosed : parsecmd (b'(' ∷ b'l' ∷ b'&' ∷ b';' ∷ b'w' ∷ []) ≡ panics missing_paren
unfolding parsecmd parseline parse_simple redirs_loop args_loop backs_loop lex gettoken skip_spaces
    span_word peek with_args
unclosed = refl

-- l&;w
in_background :
    parsecmd (b'l' ∷ b'&' ∷ b';' ∷ b'w' ∷ [])
    ≡ ok (list (back (exec ((b'l' ∷ []) ∷ []))) (exec ((b'w' ∷ []) ∷ [])))
unfolding parsecmd parseline parse_simple redirs_loop args_loop backs_loop lex gettoken skip_spaces
    span_word peek with_args
in_background = refl

typed-Reads : Reads line typed_cmd typed []
unfolding with_args
typed-Reads =
    Grammar.alone
      (Grammar.bar
        (Grammar.simple Grammar.Redirs.none (
          Grammar.arg (Grammar.last refl refl) (Grammar.trimmed refl) Grammar.Redirs.none
            (omega arith) Grammar.Args.none))
        (Grammar.trimmed refl)
        (Grammar.single (
          Grammar.simple Grammar.Redirs.none (
            Grammar.arg (Grammar.last refl refl) (Grammar.blank refl (Grammar.trimmed refl))
              (Grammar.output (Grammar.trimmed refl) (Grammar.last refl refl)
                (Grammar.blank refl (Grammar.trimmed refl)) Grammar.Redirs.none)
              (omega arith) Grammar.Args.none))))
      Grammar.Backs.none

parsecmd-Reads_example : parsecmd typed ≡ ok typed_cmd
parsecmd-Reads_example = parsecmd-Reads typed_cmd typed typed-Reads

parsecmd_ends_example : parsecmd typed ≢ stuck
parsecmd_ends_example = parsecmd_ends typed
